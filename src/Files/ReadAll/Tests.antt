-- ===== src/Files/ReadAll/Tests.antt =====
-- A file that is read two bytes at a time, and an instance of the theorem.
use xlib.Common.{
  ℕ, zero, suc, ◌≡◌, refl, min, Option, some, List, [], ◌∷◌, length, take, drop, length-take,
  length-drop, memcpy, arith,
}
use xlib.FilePath.{posix}
use xlib.Ledger.{gave}
use xlib.Files.ReadAll.{Reader, file_chunk, read_loop, terminate, read_worker}
use xlib.Files.ReadAll.Whole.{IsReader, Right, read_worker-Right}

abbrev text : List ℕ
text = 97 ∷ 98 ∷ 99 ∷ []

abbrev slowly : Reader
slowly call place asked = gave (take (min 2 asked) (drop place text))

abbrev filler : ℕ → List ℕ
filler zero = []
filler (suc n) = 7 ∷ filler n

length-filler : (n : ℕ) → length (filler n) ≡ n
length-filler zero = refl
length-filler (suc n) = omega (arith, length-filler n)

abbrev block_of : ℕ → Option (List ℕ)
block_of n = some (filler n)

slowly_reads :
    read_worker posix 4 (gave 3) block_of slowly
    ≡ some (record { error = 0; size = 3; contents = some (97 ∷ 98 ∷ 99 ∷ 0 ∷ []) })
unfolding read_worker read_loop terminate file_chunk memcpy
slowly_reads = refl

take_min : (n : ℕ) (xs : List ℕ) → take n xs ≡ take (length (take n xs)) xs
take_min zero xs = refl
take_min (suc n) [] = refl
take_min (suc n) (x ∷ xs) = cc (take_min n xs)

slowly-IsReader : IsReader text slowly
slowly-IsReader = record {
  within = λ call place asked bytes e. ground (arith, length-take (min 2 asked) (drop place text));
  bytes_of = λ call place asked bytes e. cc (take_min (min 2 asked) (drop place text));
  ends = λ call place asked e.
      ground (arith, length-take (min 2 asked) (drop place text), length-drop place text);
  fails = λ call place asked n e. ground arith;
}

read_worker-Right_example : Right text (gave 3) (read_worker posix 4 (gave 3) block_of slowly)
read_worker-Right_example =
    read_worker-Right posix 4 text (gave 3) block_of slowly slowly-IsReader
      (λ n block e. ground (arith, length-filler n)) (λ size e. ground arith)
      (λ size e. ground arith)
