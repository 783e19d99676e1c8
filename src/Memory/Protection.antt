-- ===== src/Memory/Protection.antt =====
-- What the protection flags of src/x_memory.c grant in each build.
use xlib.Common.{ℕ, zero, suc, ◌<◌, ◌≡◌, refl, Bool, true, false, ◌||◌, ◌==◌, if◌then◌else◌, arith}
use xlib.Memory.{has, virtual_protection, posix_protection, validate_protection}

-- Whether a page may be read, written and executed, from a PAGE_ constant of Windows.
abbrev pub page_rights : ℕ → Bool × Bool × Bool
page_rights page =
    if page == 0x02
    then (true, false, false)
    else if page == 0x04
    then (true, true, false)
    else if page == 0x10
    then (false, false, true)
    else if page == 0x20
    then (true, false, true)
    else if page == 0x40
    then (true, true, true)
    else (false, false, false)

-- For each combination of the three flags, which is one that `x_memory_validate_protection` accepts:
-- the POSIX build passes it on as it is, and the page constant of Windows grants writing and
-- execution exactly where they are asked for, and reading where reading or writing is.
pub protections :
    (protection : ℕ)
    → protection < 8
    → (validate_protection protection ≡ 0)
      × (posix_protection protection ≡ protection)
      × (page_rights (virtual_protection protection)
          ≡ (has protection 1 || has protection 2, has protection 2, has protection 4))
unfolding validate_protection posix_protection virtual_protection
protections zero h = (refl, refl, refl)
protections (suc zero) h = (refl, refl, refl)
protections (suc (suc zero)) h = (refl, refl, refl)
protections (suc (suc (suc zero))) h = (refl, refl, refl)
protections (suc (suc (suc (suc zero)))) h = (refl, refl, refl)
protections (suc (suc (suc (suc (suc zero))))) h = (refl, refl, refl)
protections (suc (suc (suc (suc (suc (suc zero)))))) h = (refl, refl, refl)
protections (suc (suc (suc (suc (suc (suc (suc zero))))))) h = (refl, refl, refl)
protections (suc (suc (suc (suc (suc (suc (suc (suc p)))))))) h = absurd (omega arith)
