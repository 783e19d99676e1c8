-- ===== src/Files/Watcher/Replay.antt =====
-- A caller that follows the events of a watcher knows whether the path is there.
use xlib.Common.{
  ℕ, ◌≡◌, ◌↔◌, refl, ◌∙◌, Bool, true, false, Option, none, some, List, [], ◌∷◌, ◌++◌, ◌==◌,
  if◌then◌else◌, arith,
}
use xlib.FilePath.{Platform}
use xlib.Ledger.{Status, gave, gave_error}
use xlib.Files.Watcher.{
  WatcherState, FileStatus, absent, snapshot, same_flag, differs, created, changed, deleted,
  watch_events, polled_state, watcher_poll, polls,
}

-- What a caller makes of an event: `none` is one that does not fit what it knows.
pub follow : Bool → ℕ → Option Bool
follow false event = if event == created then some true else none
follow true event =
    if event == deleted then some false else if event == changed then some true else none

abbrev pub follow_on : Option Bool → List ℕ → Option Bool
follow_on none events = none
follow_on (some there) [] = some there
follow_on (some there) (event ∷ events) = follow_on (follow there event) events

polled-follow :
    (old : WatcherState) (current : WatcherState) (rest : List ℕ)
    → follow_on (some old.exists) ((polled_state old (gave current)).called ++ rest)
      ≡ follow_on (some current.exists) rest
unfolding polled_state watch_events follow
polled-follow old current rest = ground arith

poll-follow :
    (old : WatcherState) (answer : Status WatcherState) (rest : List ℕ)
    → follow_on (some old.exists) ((polled_state old answer).called ++ rest)
      ≡ follow_on (some (polled_state old answer).state.exists) rest
unfolding polled_state
poll-follow old (gave current) rest = polled-follow old current rest
poll-follow old (gave_error error) rest = refl

-- In either build, for every row of polls, whatever the system answers, errors included: a caller that
-- starts with what the watcher knew and follows the events that its callback is called with never
-- meets one that does not fit (a creation of what is there, or a deletion or a change of what is not),
-- and ends knowing whether the path is there, as the watcher does.
pub polls-follow :
    (platform : Platform) (state : WatcherState) (answers : List (Status FileStatus))
    → let done = polls platform state answers in
      follow_on (some state.exists) done.0 ≡ some done.1.exists
unfolding polls watcher_poll
polls-follow platform state [] = refl
polls-follow platform state (answer ∷ answers) =
    poll-follow state (snapshot platform answer) _
    ∙ polls-follow platform (polled_state state (snapshot platform answer)).state answers

-- A state that a snapshot has given.
pub record IsSnapshot (s : WatcherState) : Type 0 where
  pub empty : s.exists ≡ false → s ≡ absent

-- For states that snapshots have given, no event is reported just when nothing has changed.
watch_events-quiet :
    (old current : WatcherState)
    → IsSnapshot old
    → IsSnapshot current
    → (watch_events old current ≡ 0) ↔ (old ≡ current)
unfolding watch_events differs same_flag
watch_events-quiet old current h k = ground (arith, h.empty, k.empty)
