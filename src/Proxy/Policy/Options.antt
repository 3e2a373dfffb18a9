-- ===== src/Proxy/Policy/Options.antt =====
-- What the mounts of a request that passes are: tmpfs targets with their options, and binds.
use run_secure.Common.{
  ◌≡◌, ◌≢◌, refl, ◌↔◌, Bool, true, false, ◌&&◌, Option, none, some, List, [], ◌∷◌, map, All,
  bytes_equal, arith,
}
use run_secure.Common.Map.{Map}
use run_secure.Common.Text.{Text, codes, split}
use run_secure.Proxy.Errors.{
  Check, ok, ◌>>◌, refuse_if, require, tmpfs_duplicate, tmpfs_target, tmpfs_flags_required,
  then_iff, refuse_if_iff, require_iff,
}
use run_secure.Proxy.Mount.{clean_mount_target}
use run_secure.Proxy.Mount.Clean.{Clean, clean_mount_target_iff}
use run_secure.Proxy.Repeats.{includes, NoRepeat, Unseen, Unseen-cons, Unseen-nil}
use run_secure.Proxy.Policy.{
  is_flag, is_option, cut, check_option, check_flags, check_target, check_tmpfs,
}

-- A bare flag, or one of the four options with a value.
abbrev pub OptionAllowed : Text × Option Text → Type 0
OptionAllowed (key, none) = is_flag key ≡ true
OptionAllowed (key, some value) = (is_flag key ≡ false) × (is_option key ≡ true) × (value ≢ [])

abbrev pub keys : List Text → List Text
keys = map λ flag. (cut b'=' flag).0

check_option-OptionAllowed :
    (key : Text) (value : Option Text)
    → (check_option key value ≡ ok tt) ↔ OptionAllowed (key, value)
unfolding check_option
check_option-OptionAllowed key none = (λ h. ground arith, λ h. ground arith)
check_option-OptionAllowed key (some []) = (λ h. ground arith, λ h. ground arith)
check_option-OptionAllowed key (some (c ∷ v)) = (λ h. ground arith, λ h. ground arith)

-- One round of the loop, before the rest of it.
round_iff :
    (seen : List Text) (key : Text) (value : Option Text) (rest : Check)
    → ((refuse_if (includes seen key) tmpfs_duplicate >> (check_option key value >> rest)) ≡ ok tt)
      ↔ ((includes seen key ≡ false) × OptionAllowed (key, value) × (rest ≡ ok tt))
round_iff seen key value rest =
    let first =
      then_iff (refuse_if (includes seen key) tmpfs_duplicate) (check_option key value >> rest) in
    let second = then_iff (check_option key value) rest in
    let fresh = refuse_if_iff (includes seen key) tmpfs_duplicate in
    let allowed = check_option-OptionAllowed key value in
    (
      λ h. let w = first.0 h in let z = second.0 w.1 in (fresh.0 w.0, allowed.0 z.0, z.1),
      λ h. first.1 (fresh.1 h.0, second.1 (allowed.1 h.1, h.2)),
    )

-- The loop passes exactly when every option is allowed, no key is repeated and none was seen before.
abbrev FlagsAllowed : List Text → List Text → Type 0
FlagsAllowed seen flags =
    All (λ flag. OptionAllowed (cut b'=' flag)) flags
    × NoRepeat (keys flags)
    × Unseen seen (keys flags)

check_flags_iff :
    (seen flags : List Text) → (check_flags seen flags ≡ ok tt) ↔ FlagsAllowed seen flags
unfolding check_flags
check_flags_iff seen [] = (λ h. (tt, tt, tt), λ h. refl)
check_flags_iff seen (flag ∷ flags) =
    let key = (cut b'=' flag).0 in
    let value = (cut b'=' flag).1 in
    let now = round_iff seen key value (check_flags (key ∷ seen) flags) in
    let later = check_flags_iff (key ∷ seen) flags in
    let unseen = Unseen-cons key seen (keys flags) in
    (
      λ h.
          let w = now.0 h in
          let z = later.0 w.2 in let u = unseen.0 z.2 in ((w.1, z.0), (u.0, z.1), (w.0, u.1)),
      λ h. now.1 (h.2.0, h.0.0, later.1 (h.0.1, h.1.1, unseen.1 (h.1.0, h.2.1))),
    )

-- A tmpfs mount: a clean target, and options that are each allowed, given once, and among them the
-- three that forbid executing, set-user-id and devices.
abbrev pub TmpfsAllowed : Text × Text → Type 0
TmpfsAllowed (target, options) =
    let flags = split b',' options in
    Clean target
    × (includes flags (codes "noexec") ≡ true)
    × (includes flags (codes "nosuid") ≡ true)
    × (includes flags (codes "nodev") ≡ true)
    × All (λ flag. OptionAllowed (cut b'=' flag)) flags
    × NoRepeat (keys flags)

and_iff : (a b c : Bool) → ((a && b && c) ≡ true) ↔ ((a ≡ true) × (b ≡ true) × (c ≡ true))
and_iff a b c = (λ h. ground arith, λ h. ground arith)

check_target_iff :
    (target options : Text) → (check_target target options ≡ ok tt) ↔ TmpfsAllowed (target, options)
unfolding check_target
check_target_iff target options =
    let flags = split b',' options in
    let present =
      and_iff (includes flags (codes "noexec")) (includes flags (codes "nosuid"))
        (includes flags (codes "nodev")) in
    let rest = check_flags_iff [] flags in
    let clean = clean_mount_target_iff target in
    let at_target = require_iff (clean_mount_target target) tmpfs_target in
    let three =
      includes flags (codes "noexec")
      && includes flags (codes "nosuid")
      && includes flags (codes "nodev") in
    let at_flags = require_iff three tmpfs_flags_required in
    let inner = then_iff (require three tmpfs_flags_required) (check_flags [] flags) in
    let outer =
      then_iff (require (clean_mount_target target) tmpfs_target)
        (require three tmpfs_flags_required >> check_flags [] flags) in
    (
      λ h.
          let w = outer.0 h in
          let z = inner.0 w.1 in
          let p = present.0 (at_flags.0 z.0) in
          let f = rest.0 z.1 in (clean.0 (at_target.0 w.0), p.0, p.1, p.2, f.0, f.1),
      λ h. outer.1 (
        at_target.1 (clean.1 h.0),
        inner.1
            (at_flags.1 (present.1 (h.1, h.2, h.3)), rest.1 (h.4, h.5, Unseen-nil (keys flags))),
      ),
    )

-- The tmpfs mounts pass exactly when each has a clean target and options that include noexec, nosuid
-- and nodev, with no key given twice, no value on a flag, and otherwise only size, uid, gid or mode
-- with a value.
pub check_tmpfs_iff : (tmpfs : Map Text Text) → (check_tmpfs tmpfs ≡ ok tt) ↔ All TmpfsAllowed tmpfs
unfolding check_tmpfs
check_tmpfs_iff [] = (λ h. tt, λ h. refl)
check_tmpfs_iff ((target, options) ∷ tmpfs) =
    let step = then_iff (check_target target options) (check_tmpfs tmpfs) in
    let one = check_target_iff target options in
    let rest = check_tmpfs_iff tmpfs in
    (λ h. let w = step.0 h in (one.0 w.0, rest.0 w.1), λ h. step.1 (one.1 h.0, rest.1 h.1))
