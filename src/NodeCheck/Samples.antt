-- ===== src/NodeCheck/Samples.antt =====
-- The node check on lists of security options.
use vmdockerv.Base.{[], codes, contains, false, refl, true, ◌∷◌, ◌≡◌}
use vmdockerv.NodeCheck.{seccomp_effective}

unconfined_is_refused :
    seccomp_effective (codes "name=apparmor" ∷ codes "name=seccomp,profile=unconfined" ∷ []) ≡ false
unfolding seccomp_effective contains
unconfined_is_refused = refl

default_profile_passes : seccomp_effective (codes "name=seccomp,profile=builtin" ∷ []) ≡ true
unfolding seccomp_effective contains
default_profile_passes = refl
