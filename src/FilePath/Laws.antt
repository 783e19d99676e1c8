-- ===== src/FilePath/Laws.antt =====
-- `x_path_join` of src/x_filesystem.c, in the POSIX build, as an operation on paths.
use xlib.Common.{
  ℕ, ◌+◌, ◌-◌, ◌<◌, ◌≤◌, ◌≡◌, refl, ap, sym, ◌∙◌, inl, inr, true, false, some, List, [], ◌∷◌, ◌++◌,
  ◌==◌, length, length-append, CString, IsString, word, read_string, arith, Bool-cases,
  append_assoc, append-nil,
}
use xlib.FilePath.{
  Platform, posix, slash, byte_at, is_absolute, non_empty_absolute, has_separator, path_join,
}
use xlib.FilePath.Join.{joined, glue, path_join-read, joined-IsString}

-- A POSIX path is absolute when it begins with a slash.
is_absolute_posix : (c : ℕ) (s : CString) → is_absolute posix (c ∷ s) ≡ (c == slash)
unfolding is_absolute non_empty_absolute
is_absolute_posix c s = ground arith

joined-nil : (p : Platform) (s : CString) → joined p s [] ≡ s
unfolding joined is_absolute
joined-nil p [] = refl
joined-nil p (c ∷ s) = ground (arith, append-nil s)

joined-nil_left : (p : Platform) (s : CString) → joined p [] s ≡ s
unfolding joined
joined-nil_left p s = refl

joined-absolute :
    (p : Platform) (left right : CString) → is_absolute p right ≡ true → joined p left right ≡ right
unfolding joined
joined-absolute p [] right h = refl
joined-absolute p (c ∷ left) right h = rw h

joined-relative :
    (p : Platform) (c : ℕ) (left right : CString)
    → is_absolute p right ≡ false
    → joined p (c ∷ left) right ≡ (c ∷ left) ++ (glue p (c ∷ left) right ++ right)
unfolding joined
joined-relative p c left right h = rw h

is_absolute-append :
    (c : ℕ) (s t : CString) → is_absolute posix (c ∷ (s ++ t)) ≡ is_absolute posix (c ∷ s)
is_absolute-append c s t = is_absolute_posix c (s ++ t) ∙ sym (is_absolute_posix c s)

last-append :
    (s : CString) (c : ℕ) (t : CString)
    → byte_at (s ++ c ∷ t) (length (s ++ c ∷ t) - 1) ≡ byte_at (c ∷ t) (length (c ∷ t) - 1)
last-append [] c t = refl
last-append (d ∷ []) c t = ground arith
last-append (d ∷ e ∷ s) c t = ground (arith, last-append (e ∷ s) c t)

has_separator-append :
    (p : Platform) (s : CString) (c : ℕ) (t : CString)
    → has_separator p (s ++ c ∷ t) ≡ has_separator p (c ∷ t)
unfolding has_separator
has_separator-append p [] c t = refl
has_separator-append p (d ∷ s) c t = ground (arith, last-append (d ∷ s) c t)

-- What stands between a path and a non-empty right part depends on the end of the path only.
glue-append :
    (p : Platform) (s : CString) (c : ℕ) (t : CString) (d : ℕ) (right : CString)
    → glue p (s ++ c ∷ t) (d ∷ right) ≡ glue p (c ∷ t) (d ∷ right)
glue-append p s c t d right = rw (has_separator-append p s c t)

assoc_relative :
    (x y z : ℕ) (a b c : CString)
    → is_absolute posix (y ∷ b) ≡ false
    → is_absolute posix (z ∷ c) ≡ false
    → joined posix (joined posix (x ∷ a) (y ∷ b)) (z ∷ c)
      ≡ joined posix (x ∷ a) (joined posix (y ∷ b) (z ∷ c))
assoc_relative x y z a b c hb hc =
    ap (λ s. joined posix s (z ∷ c)) (joined-relative posix x a (y ∷ b) hb)
    ∙ joined-relative posix x (a ++ (g ++ y ∷ b)) (z ∷ c) hc
    ∙ ap (λ s. (x ∷ (a ++ (g ++ y ∷ b))) ++ (s ++ z ∷ c)) same_glue
    ∙ (simp append_assoc)
    ∙ sym (
        joined-relative posix x a (y ∷ (b ++ (h ++ z ∷ c)))
          (is_absolute-append y b (h ++ z ∷ c) ∙ hb))
    ∙ ap (joined posix (x ∷ a)) (sym (joined-relative posix y b (z ∷ c) hc))
  where
    g : CString
    g = glue posix (x ∷ a) (y ∷ b)

    h : CString
    h = glue posix (y ∷ b) (z ∷ c)

    same_glue : glue posix (x ∷ (a ++ (g ++ y ∷ b))) (z ∷ c) ≡ h
    same_glue =
        ap (λ s. glue posix s (z ∷ c)) (sym (append_assoc (x ∷ a) g (y ∷ b)))
        ∙ glue-append posix ((x ∷ a) ++ g) y b z c

-- A path that is joined to an absolute one is absolute.
joined-absolute_left :
    (y : ℕ) (b right : CString)
    → is_absolute posix (y ∷ b) ≡ true
    → is_absolute posix right ≡ false
    → is_absolute posix (joined posix (y ∷ b) right) ≡ true
joined-absolute_left y b right hb hr =
    rw (joined-relative posix y b right hr)
      (is_absolute-append y b (glue posix (y ∷ b) right ++ right) ∙ hb)

-- Joining is associative on POSIX paths.
joined_assoc :
    (a b c : CString) → joined posix (joined posix a b) c ≡ joined posix a (joined posix b c)
joined_assoc [] b c = rw (joined-nil_left, joined-nil_left)
joined_assoc (x ∷ a) [] c = rw (joined-nil, joined-nil_left)
joined_assoc (x ∷ a) (y ∷ b) [] = rw (joined-nil, joined-nil)
joined_assoc (x ∷ a) (y ∷ b) (z ∷ c) = elim (Bool-cases (is_absolute posix (z ∷ c))) [
  | inl e ↦ rw (
    joined-absolute posix _ (z ∷ c) e,
    joined-absolute posix _ (z ∷ c) e,
    joined-absolute posix _ (z ∷ c) e,
  )
  | inr e ↦ elim (Bool-cases (is_absolute posix (y ∷ b))) [
    | inl f ↦
        ap (λ s. joined posix s (z ∷ c)) (joined-absolute posix (x ∷ a) (y ∷ b) f)
        ∙ sym (
            joined-absolute posix (x ∷ a) (joined posix (y ∷ b) (z ∷ c))
              (joined-absolute_left y b (z ∷ c) f e))
    | inr f ↦ assoc_relative x y z a b c f e
  ]
]

-- A successful call of `x_path_join`: some buffer of the announced size then holds `path`.
pub record Joins (p : Platform) (left right path : CString) : Type 0 where
  pub buffer : List ℕ
  pub size : ℕ
  pub after : List ℕ
  pub some_room : 0 < size
  pub in_buffer : size ≤ length buffer
  pub returns : path_join p (some buffer) size (some left) (some right) ≡ some (0, some after)
  pub reads : read_string after ≡ path

Joins-joined :
    {p : Platform} {left right path : CString}
    → IsString left
    → IsString right
    → length left + length right + 2 < word
    → Joins p left right path
    → path ≡ joined p left right
Joins-joined {p} {left} {right} hl hr small j =
    sym j.reads
    ∙ path_join-read p j.buffer left right j.after j.size hl hr j.some_room j.in_buffer small
        j.returns

length-glue-le : (p : Platform) (left right : CString) → length (glue p left right) ≤ 1
length-glue-le p left [] = omega arith
length-glue-le p left (d ∷ right) = ground arith

length-joined :
    (p : Platform) (left right : CString)
    → length (joined p left right) ≤ length left + length right + 1
length-joined p [] right = rw (joined-nil_left p right) (omega arith)
length-joined p (c ∷ left) right = elim (Bool-cases (is_absolute p right)) [
  | inl e ↦ rw (joined-absolute p (c ∷ left) right e) (omega arith)
  | inr e ↦ rw (joined-relative p c left right e) (
      omega (
        arith,
        length-append (c ∷ left) (glue p (c ∷ left) right ++ right),
        length-append (glue p (c ∷ left) right) right,
        length-glue-le p (c ∷ left) right,
      ))
]

-- The joined path is itself a string that can be joined on.
Joins-IsString :
    (p : Platform) (left right : CString) {path : CString}
    → IsString left
    → IsString right
    → path ≡ joined p left right
    → IsString path × (length path ≤ length left + length right + 1)
Joins-IsString p left right hl hr e =
    (rw e (joined-IsString p left right hl hr), rw e (length-joined p left right))

-- In the POSIX build, for strings that are short enough together, joining a joined path to a third
-- one and joining the first path to the other two joined give the same string, whenever the four
-- calls of `x_path_join` succeed.
pub path_join_assoc :
    {a b c ab bc left right : CString}
    → IsString a
    → IsString b
    → IsString c
    → length a + length b + length c + 4 < word
    → Joins posix a b ab
    → Joins posix ab c left
    → Joins posix b c bc
    → Joins posix a bc right
    → left ≡ right
path_join_assoc {a} {b} {c} ha hb hc small j1 j2 j3 j4 =
    let e1 = Joins-joined ha hb (omega arith) j1 in
    let e3 = Joins-joined hb hc (omega arith) j3 in
    let (is_ab, length_ab) = Joins-IsString posix a b ha hb e1 in
    let (is_bc, length_bc) = Joins-IsString posix b c hb hc e3 in
    Joins-joined is_ab hc (omega arith) j2
    ∙ ap (λ s. joined posix s c) e1
    ∙ joined_assoc a b c
    ∙ ap (joined posix a) (sym e3)
    ∙ sym (Joins-joined ha is_bc (omega arith) j4)
