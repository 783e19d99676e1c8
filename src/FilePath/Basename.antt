-- ===== src/FilePath/Basename.antt =====
-- `x_path_basename` of src/x_filesystem.c: where the last component of a path begins.
use xlib.Common.{
  ℕ, ◌+◌, ◌<◌, ◌≤◌, ◌≡◌, ◌≢◌, refl, ap, ap₂, subst, ◌∙◌, ◌⊎◌, inl, inr, true, false, some, [], ◌∷◌,
  ◌++◌, length, length-append, drop, CString, IsString, read_string, word, All, arith, Bool-cases,
  append_assoc, append-nil, drop-append_add,
}
use native.Mathlib.Nat.{zero-add}
use xlib.FilePath.{
  Platform, posix, windows, is_absolute, is_separator, separator, has_separator, path_basename,
  basename_loop, path_join, byte_at,
}
use xlib.FilePath.Join.{joined, glue, path_join-read}

abbrev pub IsName : Platform → CString → Type 0
IsName p n = All (λ c. is_separator p c ≡ false) n

-- A directory part: empty, or ending in a separator.
abbrev pub IsFront : Platform → CString → Type 0
IsFront p f = (f ≡ []) ⊎ ((g : CString) × (c : ℕ) × (f ≡ g ++ c ∷ []) × (is_separator p c ≡ true))

-- `offset` splits the path into a directory part and a name.
pub record IsSplit (p : Platform) (path : CString) (offset : ℕ) : Type 0 where
  pub front : CString
  pub name : CString
  pub parts : path ≡ front ++ name
  pub at : offset ≡ length front
  pub front_IsFront : IsFront p front
  pub name_IsName : IsName p name

IsName-snoc :
    (p : Platform) (n : CString) (c : ℕ)
    → IsName p n
    → is_separator p c ≡ false
    → IsName p (n ++ c ∷ [])
IsName-snoc p [] c h e = (e, tt)
IsName-snoc p (d ∷ n) c h e = (h.0, IsName-snoc p n c h.1 e)

loop-IsSplit :
    (p : Platform) (front name rest : CString) (cursor last : ℕ)
    → cursor ≡ length (front ++ name)
    → last ≡ length front
    → IsFront p front
    → IsName p name
    → IsSplit p (front ++ (name ++ rest)) (basename_loop p rest cursor last)
unfolding basename_loop
loop-IsSplit p front name [] cursor last ec el hf hn = record {
  front = front;
  name = name;
  parts = simp append-nil;
  at = el;
  front_IsFront = hf;
  name_IsName = hn;
}
loop-IsSplit p front name (c ∷ rest) cursor last ec el hf hn =
    elim (Bool-cases (is_separator p c)) [
      | inl e ↦ rw e (
          subst (λ q. IsSplit p q (basename_loop p rest (cursor + 1) (cursor + 1)))
            (simp append_assoc)
            (loop-IsSplit p ((front ++ name) ++ c ∷ []) [] rest (cursor + 1) (cursor + 1)
              (omega (arith, new_length, new_length_nil)) (omega (arith, new_length))
              (inr (front ++ name, c, refl, e)) tt))
      | inr e ↦ rw e (
          subst (λ q. IsSplit p q (basename_loop p rest (cursor + 1) last)) (simp append_assoc)
            (loop-IsSplit p front (name ++ c ∷ []) rest (cursor + 1) last
              (omega (arith, new_length, ap length (append_assoc front name (c ∷ [])))) el hf
              (IsName-snoc p name c hn e)))
    ]
  where
    new_length : length ((front ++ name) ++ c ∷ []) ≡ length (front ++ name) + 1
    new_length = omega (arith, length-append (front ++ name) (c ∷ []))

    new_length_nil : length (((front ++ name) ++ c ∷ []) ++ []) ≡ length ((front ++ name) ++ c ∷ [])
    new_length_nil = rw append-nil

-- In either build `x_path_basename` returns 0 and an offset that splits the path into a part that
-- is empty or ends in a separator, and a name that holds no separator.
pub path_basename-IsSplit :
    (p : Platform) (path : CString)
    → (offset : ℕ) × (path_basename p (some path) true ≡ (0, some offset)) × IsSplit p path offset
unfolding path_basename
path_basename-IsSplit p path =
    (basename_loop p path 0 0, refl, loop-IsSplit p [] [] path 0 0 refl refl (inl refl) tt)

-- The loop goes through the left part of a path first.
basename_loop-append :
    (p : Platform) (left right : CString) (cursor last : ℕ)
    → basename_loop p (left ++ right) cursor last
      ≡ basename_loop p right (cursor + length left) (basename_loop p left cursor last)
unfolding basename_loop
basename_loop-append p [] right cursor last = ap (λ k. basename_loop p right k last) (omega arith)
basename_loop-append p (c ∷ left) right cursor last =
    basename_loop-append p left right (cursor + 1) _
    ∙ ap (λ k. basename_loop p right k (basename_loop p (c ∷ left) cursor last)) (omega arith)

-- Started `k` bytes further on, it ends `k` bytes further on.
basename_loop-shift :
    (p : Platform) (path : CString) (k cursor last : ℕ)
    → basename_loop p path (k + cursor) (k + last) ≡ k + basename_loop p path cursor last
unfolding basename_loop
basename_loop-shift p [] k cursor last = refl
basename_loop-shift p (c ∷ path) k cursor last = elim (Bool-cases (is_separator p c)) [
  | inl e ↦ rw e (
      ap₂ (basename_loop p path) (omega arith) (omega arith)
      ∙ basename_loop-shift p path k (cursor + 1) (cursor + 1))
  | inr e ↦ rw e (
      ap (λ x. basename_loop p path x (k + last)) (omega arith)
      ∙ basename_loop-shift p path k (cursor + 1) last)
]

-- After a separator the loop stands at what follows it.
basename_loop-front :
    (p : Platform) (front right : CString)
    → IsFront p front
    → basename_loop p (front ++ right) 0 0 ≡ length front + basename_loop p right 0 0
unfolding basename_loop
basename_loop-front p front right (inl e) = rw (e, zero-add)
basename_loop-front p front right (inr (g, c, e, sep)) = rw e (
    basename_loop-append p (g ++ c ∷ []) right 0 0
    ∙ ap₂ (basename_loop p right) (omega arith) (ends ∙ omega arith)
    ∙ basename_loop-shift p right (length (g ++ c ∷ [])) 0 0)
  where
    ends : basename_loop p (g ++ c ∷ []) 0 0 ≡ length (g ++ c ∷ [])
    ends = basename_loop-append p g (c ∷ []) 0 0 ∙ rw sep (omega (arith, length-append g (c ∷ [])))

last_byte : (c : ℕ) (s : CString) → (g : CString) × (c ∷ s ≡ g ++ byte_at (c ∷ s) (length s) ∷ [])
last_byte c [] = ([], refl)
last_byte c (d ∷ s) = let (g, e) = last_byte d s in (c ∷ g, ap (◌∷◌ c) e)

has_separator-IsFront :
    (p : Platform) (c : ℕ) (s : CString) → has_separator p (c ∷ s) ≡ true → IsFront p (c ∷ s)
unfolding has_separator
has_separator-IsFront p c s h =
    let (g, e) = last_byte c s in inr (g, byte_at (c ∷ s) (length s), e, ground arith)

separator-is_separator : (p : Platform) → is_separator p (separator p) ≡ true
unfolding is_separator separator
separator-is_separator posix = refl
separator-is_separator windows = refl

glue-IsFront :
    (p : Platform) (c d : ℕ) (left right : CString)
    → IsFront p ((c ∷ left) ++ glue p (c ∷ left) (d ∷ right))
glue-IsFront p c d left right = elim (Bool-cases (has_separator p (c ∷ left))) [
  | inl e ↦ rw (e, append-nil) (has_separator-IsFront p c left e)
  | inr e ↦ rw e (inr (c ∷ left, separator p, refl, separator-is_separator p))
]

abbrev base_of : Platform → CString → CString
base_of p s = drop (basename_loop p s 0 0) s

base_of-front :
    (p : Platform) (front right : CString)
    → IsFront p front
    → base_of p (front ++ right) ≡ base_of p right
base_of-front p front right h =
    rw (basename_loop-front p front right h)
      (drop-append_add front right (basename_loop p right 0 0))

base_of-joined :
    (p : Platform) (left right : CString)
    → right ≢ []
    → base_of p (joined p left right) ≡ base_of p right
unfolding joined
base_of-joined p left [] h = absurd (h refl)
base_of-joined p [] (d ∷ right) h = refl
base_of-joined p (c ∷ left) (d ∷ right) h = elim (Bool-cases (is_absolute p (d ∷ right))) [
  | inl e ↦ rw e
  | inr e ↦
      rw (e, ← append_assoc)
        (base_of-front p ((c ∷ left) ++ glue p (c ∷ left) (d ∷ right)) (d ∷ right)
          (glue-IsFront p c d left right))
]

-- In either build, when `x_path_join` succeeds with a non-empty right part, `x_path_basename` of
-- the joined path and of the right part alone succeed and give the same name.
pub path_basename-path_join :
    (p : Platform) (buffer left right after : CString) (size : ℕ)
    → IsString left
    → IsString right
    → 0 < size
    → size ≤ length buffer
    → length left + length right + 2 < word
    → right ≢ []
    → path_join p (some buffer) size (some left) (some right) ≡ some (0, some after)
    → (m n : ℕ) × (path_basename p (some (read_string after)) true ≡ (0, some m))
      × (path_basename p (some right) true ≡ (0, some n))
      × (drop m (read_string after) ≡ drop n right)
unfolding path_basename
path_basename-path_join p buffer left right after size hl hr pos fits small ne e = (
  basename_loop p (read_string after) 0 0,
  basename_loop p right 0 0,
  refl,
  refl,
  rw (path_join-read p buffer left right after size hl hr pos fits small e)
      (base_of-joined p left right ne),
)
