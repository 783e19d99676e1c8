-- ===== src/Common/Errno.antt =====
-- The status numbers that the library's functions return (`errno.h` of Linux), and the bounds of
-- the C integer types.
use Prim.Native.Nat.{ℕ, ◌+◌, ◌-◌, ◌*◌, ◌%◌, ◌^◌}

abbrev pub enoent : ℕ
enoent = 2

abbrev pub eio : ℕ
eio = 5

abbrev pub eacces : ℕ
eacces = 13

abbrev pub eexist : ℕ
eexist = 17

abbrev pub eintr : ℕ
eintr = 4

abbrev pub eagain : ℕ
eagain = 11

abbrev pub enomem : ℕ
enomem = 12

abbrev pub einval : ℕ
einval = 22

abbrev pub enametoolong : ℕ
enametoolong = 36

abbrev pub eoverflow : ℕ
eoverflow = 75

abbrev pub eafnosupport : ℕ
eafnosupport = 97

abbrev pub eaddrinuse : ℕ
eaddrinuse = 98

abbrev pub eaddrnotavail : ℕ
eaddrnotavail = 99

abbrev pub econnreset : ℕ
econnreset = 104

abbrev pub enobufs : ℕ
enobufs = 105

abbrev pub etimedout : ℕ
etimedout = 110

abbrev pub econnrefused : ℕ
econnrefused = 111

abbrev pub einprogress : ℕ
einprogress = 115

abbrev pub enotsock : ℕ
enotsock = 88

abbrev pub eprotonosupport : ℕ
eprotonosupport = 93

-- `uint64_t`, and `size_t` on a 64-bit platform.
abbrev pub word : ℕ
word = 2 ^ 64

abbrev pub uint64_max : ℕ
uint64_max = 2 ^ 64 - 1

abbrev pub uint_max : ℕ
uint_max = 2 ^ 32 - 1

abbrev pub int_max : ℕ
int_max = 2 ^ 31 - 1

-- The sum and the product of two 64-bit words.
abbrev pub add_word : ℕ → ℕ → ℕ
add_word a b = (a + b) % word

abbrev pub mul_word : ℕ → ℕ → ℕ
mul_word a b = (a * b) % word
