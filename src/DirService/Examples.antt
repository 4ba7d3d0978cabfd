-- ===== src/DirService/Examples.antt =====
-- The theorems about chapter_48/dir_service/dir_service.c at concrete directories.
use tlpi_solutions.Common.{
  ℕ, zero, suc, ◌≡◌, ◌≢◌, refl, true, false, List, [], ◌∷◌, arith, replicate, bytes_eq,
  if◌then◌else◌,
}
use tlpi_solutions.DirService.{
  Ipc, ret_error, ret_1, dir_init, dir_set, dir_get, dir_delete, set_locked, update_entry,
  create_entry, holds, strncmp_eq,
}
use tlpi_solutions.DirService.Strings.{IsString}
use tlpi_solutions.DirService.Table.{IsName}
use tlpi_solutions.DirService.Invariant.{IsValid}
use tlpi_solutions.DirService.Calls.{up, shown, dir_init-IsValid, dir_set-IsValid, get-set}
use tlpi_solutions.DirService.Resources.{Leaves, calls-Leaves}

abbrev host : List ℕ
host = b'h' ∷ b'o' ∷ b's' ∷ b't' ∷ []

abbrev address : List ℕ
address = b'1' ∷ b'2' ∷ b'7' ∷ []

abbrev long_name : List ℕ
long_name = replicate 32 b'x'

text : (n c : ℕ) → c ≢ 0 → IsString (replicate n c)
text zero c h = tt
text (suc n) c h = (h, text n c h)

host-IsName : IsName host
host-IsName = record {
  text = (omega arith, (omega arith, (omega arith, (omega arith, tt))));
  short = omega arith;
}

address-IsString : IsString address
address-IsString = (omega arith, (omega arith, (omega arith, tt)))

created : (dir_set up dir_init host address).0 ≡ ret_1
unfolding dir_set dir_init set_locked update_entry create_entry holds strncmp_eq
created = refl

created-not-error : (dir_set up dir_init host address).0 ≢ ret_error
created-not-error e = absurd (cc (created))

dir_set-IsValid_example : IsValid (dir_set up dir_init host address).1.dir
dir_set-IsValid_example = dir_set-IsValid dir_init host address host-IsName dir_init-IsValid

get-set_example :
    (dir_get up (dir_set up dir_init host address).1 host).0
    ≡ (if bytes_eq host host then shown address else (dir_get up dir_init host).0)
get-set_example =
    get-set dir_init host address host dir_init-IsValid host-IsName address-IsString
      host-IsName.text created-not-error

-- Giving the semaphore back fails.
abbrev kept : Ipc
kept = record {
  attaches = true;
  has_semaphore = true;
  locks = true;
  unlocks = false;
  detaches = true;
}

calls-Leaves_example :
    Leaves kept dir_init (dir_set kept dir_init host address).1
    × Leaves kept dir_init (dir_get kept dir_init host).1
    × Leaves kept dir_init (dir_delete kept dir_init host).1
unfolding dir_init
calls-Leaves_example = calls-Leaves kept dir_init host address (omega arith)
