-- ===== src/Vfs/Path.antt =====
-- `vfs_pathc_valid` and `vfs_cmp_cnt` of src/sys/os/vfs_subr.c.
use l5lunos.Prelude.{
  ℕ, zero, suc, ◌+◌, Bool, true, false, not, ◌&&◌, ◌||◌, Option, none, some, [], ◌∷◌, leb, ◌==◌,
  if◌then◌else◌, Bytes, length,
}
use l5lunos.Prelude.Errno.{Ret, ok, err, einval, enoent}
pub mod Count

-- Whether `vfs_pathc_valid` returns 0.
unfoldable pub vfs_pathc_valid : ℕ → Bool
vfs_pathc_valid c =
    (leb b'a' c && leb c b'z')
    || (leb b'A' c && leb c b'Z')
    || (leb b'0' c && leb c b'9')
    || (c == b'/')

-- while (*p == '/') ++p;
unfoldable pub skip_slashes : Bytes → Bytes
skip_slashes [] = []
skip_slashes (c ∷ p) = let rest = skip_slashes p in if c == b'/' then rest else c ∷ p

-- The loop over a component: whether `error` is negative behind it, and the rest of the path.
unfoldable pub scan_name : Bool → Bytes → Bool × Bytes
scan_name bad [] = (bad, [])
scan_name bad (c ∷ p) =
    let rest = scan_name (not (vfs_pathc_valid c)) p in if c == b'/' then (bad, c ∷ p) else rest

-- What follows the tests behind a component; `again` is the next round.
abbrev pub after_name : (Bool → Bytes → Ret ℕ) → ℕ → Bool × Bytes → Ret ℕ
after_name again cnt (true, p) = err einval
after_name again cnt (false, []) = ok (cnt + 1)
after_name again cnt (false, c ∷ p) = again false p

-- The outer loop. A round consumes a byte, so the length of the path is enough fuel.
unfoldable pub count_names : ℕ → Bool → ℕ → Bytes → Ret ℕ
count_names zero bad cnt p = ok (cnt + 1)
count_names (suc fuel) bad cnt [] = ok (cnt + 1)
count_names (suc fuel) bad cnt (c ∷ p) =
    after_name (λ b q. count_names fuel b (cnt + 1) q) cnt (scan_name bad (skip_slashes (c ∷ p)))

abbrev pub count_from_root : Bool → Bytes → Ret ℕ
count_from_root bad [] = ok 1
count_from_root bad (c ∷ p) = count_names (length (c ∷ p) + 1) bad 0 (b'/' ∷ c ∷ p)

-- `bad` says whether `error` is negative before it is first written to.
unfoldable pub vfs_cmp_cnt : Bool → Option Bytes → Ret ℕ
vfs_cmp_cnt bad none = err einval
vfs_cmp_cnt bad (some []) = err enoent
vfs_cmp_cnt bad (some (c ∷ p)) = if c == b'/' then count_from_root bad p else err enoent
