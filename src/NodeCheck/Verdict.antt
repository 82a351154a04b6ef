-- ===== src/NodeCheck/Verdict.antt =====
-- What the verdict of the node check says about the daemon.
use vmdockerv.Base.{
  Bool, Bool-cases, Error, List, Option, Text, [], ap, arith, codes, contains, false, inl, inr,
  is_empty, none, not, refl, some, true, ◌&&◌, ◌++◌, ◌||◌, ◌∷◌, ◌≡◌, ◌≢◌, ◌⊎◌,
}
use vmdockerv.NodeCheck.{
  confinement_report, failures, has_security_option, mac_present, seccomp_effective, verdict_of,
}
use vmdockerv.Schema.{SystemInfo}

abbrev pub is_none : Option Error → Bool
is_none none = true
is_none (some e) = false

-- The refuse-severity checks, and in strict mode the warnings too.
abbrev pub confines : Bool → SystemInfo → Bool
confines strict i =
    not (is_empty i.server_version)
    && (seccomp_effective i.security_options
        && (i.memory_limit
            && (not strict || (i.swap_limit && (i.pids_limit && mac_present i.security_options)))))

pub verdict-failures :
    (strict : Bool) (i : SystemInfo)
    → is_none (verdict_of (failures strict (confinement_report i))) ≡ confines strict i
unfolding failures
verdict-failures strict i = ground arith

abbrev pub NoneNames : Text → List Text → Type 0
NoneNames name [] = Unit
NoneNames name (o ∷ opts) = (contains o name ≡ false) × NoneNames name opts

-- The first of the options that names seccomp does not turn it off.
pub record HasSeccomp (opts : List Text) : Type 0 where
  pub before : List Text
  pub option : Text
  pub later : List Text
  pub is_split : opts ≡ before ++ option ∷ later
  pub is_first : NoneNames (codes "name=seccomp") before
  pub is_named : contains option (codes "name=seccomp") ≡ true
  pub is_on : contains option (codes "profile=unconfined") ≡ false

-- One of the options names the security module.
abbrev pub Names : Text → List Text → Type 0
Names name opts =
    (before later : List Text) × (option : Text) × (opts ≡ before ++ option ∷ later)
    × (contains option name ≡ true)

-- What a daemon must say of itself to run containers, and in strict mode as well.
pub record IsConfined (strict : Bool) (i : SystemInfo) : Type 0 where
  pub has_version : i.server_version ≢ []
  pub has_seccomp : HasSeccomp i.security_options
  pub limits_memory : i.memory_limit ≡ true
  pub when_strict :
      (strict ≡ false)
      ⊎ ((i.swap_limit ≡ true)
          × (i.pids_limit ≡ true)
          × (Names (codes "name=apparmor") i.security_options
              ⊎ Names (codes "name=selinux") i.security_options))

seccomp_effective-HasSeccomp : (opts : List Text) → seccomp_effective opts ≡ true → HasSeccomp opts
unfolding seccomp_effective
seccomp_effective-HasSeccomp [] h = absurd (ground arith)
seccomp_effective-HasSeccomp (o ∷ opts) h = elim (Bool-cases (contains o (codes "name=seccomp"))) [
  | inl n ↦ record {
    before = [];
    option = o;
    later = opts;
    is_split = refl;
    is_first = tt;
    is_named = n;
    is_on = ground (arith, n);
  }
  | inr n ↦
      let rest = seccomp_effective-HasSeccomp opts (ground (arith, n)) in
      record {
        before = o ∷ rest.before;
        option = rest.option;
        later = rest.later;
        is_split = ap (λ l. o ∷ l) rest.is_split;
        is_first = (n, rest.is_first);
        is_named = rest.is_named;
        is_on = rest.is_on;
      }
]

has_security_option-Names :
    (name : Text) (opts : List Text)
    → has_security_option opts name ≡ true
    → Names (codes "name=" ++ name) opts
unfolding has_security_option
has_security_option-Names name [] h = absurd (ground arith)
has_security_option-Names name (o ∷ opts) h =
    elim (Bool-cases (contains o (codes "name=" ++ name))) [
      | inl n ↦ ([], opts, o, refl, n)
      | inr n ↦
          let (before, later, option, e, m) =
            has_security_option-Names name opts (ground (arith, n)) in
          (o ∷ before, later, option, ap (λ l. o ∷ l) e, m)
    ]

mac_present-Names :
    (opts : List Text)
    → mac_present opts ≡ true
    → Names (codes "name=apparmor") opts ⊎ Names (codes "name=selinux") opts
mac_present-Names opts h = elim (Bool-cases (has_security_option opts (codes "apparmor"))) [
  | inl a ↦ inl (has_security_option-Names (codes "apparmor") opts a)
  | inr a ↦ inr (has_security_option-Names (codes "selinux") opts (ground (arith, a)))
]

confines-strict :
    (i : SystemInfo)
    → confines true i ≡ true
    → (i.swap_limit ≡ true)
      × (i.pids_limit ≡ true)
      × (Names (codes "name=apparmor") i.security_options
          ⊎ Names (codes "name=selinux") i.security_options)
confines-strict i h =
    (ground arith, ground arith, mac_present-Names i.security_options (ground arith))

pub confines-IsConfined :
    (strict : Bool) (i : SystemInfo) → confines strict i ≡ true → IsConfined strict i
confines-IsConfined strict i h = record {
  has_version = λ e. absurd (ground (arith, e));
  has_seccomp = seccomp_effective-HasSeccomp i.security_options (ground arith);
  limits_memory = ground arith;
  when_strict = strictly strict h;
}
  where
    strictly :
        (strict : Bool)
        → confines strict i ≡ true
        → (strict ≡ false)
          ⊎ ((i.swap_limit ≡ true)
              × (i.pids_limit ≡ true)
              × (Names (codes "name=apparmor") i.security_options
                  ⊎ Names (codes "name=selinux") i.security_options))
    strictly false h = inl refl
    strictly true h = inr (confines-strict i h)
