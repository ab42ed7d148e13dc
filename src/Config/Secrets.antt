-- ===== src/Config/Secrets.antt =====
-- `FindBySecret`: which group a signup secret opens.
use notmanytuples.Prelude.{
  String, ◌≡◌, ◌≢◌, inl, inr, refl, sym, ap, ◌∙◌, Option, none, some, List, [], ◌∷◌, arith, ◌==◌,
  string_eq, Bool-cases, Option-cases, eq_iff,
}
use mathlib.Core.Path.{subst}
use notmanytuples.Prelude.Lists.{In}
use notmanytuples.Config.{
  GroupConfig, SubgroupConfig, find_subgroup_secret, find_secret, find_by_secret,
}

-- The secret is not empty, and it is the one of the group or of the subgroup.
abbrev pub Opens : String → GroupConfig × Option SubgroupConfig → Type 0
Opens secret (g, none) = (secret ≢ "") × (g.secret ≡ secret)
Opens secret (g, some s) = (secret ≢ "") × In s g.subgroups × (s.secret ≡ secret)

find_subgroup_secret_sound :
    (subgroups : List SubgroupConfig) (secret : String) (s : SubgroupConfig)
    → find_subgroup_secret subgroups secret ≡ some s
    → In s subgroups × (s.secret ≡ secret)
unfolding find_subgroup_secret
find_subgroup_secret_sound [] secret s h = absurd (ground arith)
find_subgroup_secret_sound (x ∷ xs) secret s h = elim (Bool-cases (x.secret == secret)) [
  | inl e ↦
      let same : x ≡ s = ground arith in
      (
        inl (sym same),
        ap (λ (t : SubgroupConfig). t.secret) (sym same) ∙ (eq_iff x.secret secret).0 e,
      )
  | inr e ↦ let (m, same) = find_subgroup_secret_sound xs secret s (ground arith) in (inr m, same)
]

module _ (secret : String) (set : secret ≢ "") where
  with_secret : {A B : Type 0} → A × B → (secret ≢ "") × A × B
  with_secret (a, b) = (set, a, b)

  find_secret_sound :
      (groups : List GroupConfig) (found : GroupConfig × Option SubgroupConfig)
      → find_secret groups secret ≡ some found
      → In found.0 groups × Opens secret found
  unfolding find_secret
  find_secret_sound [] found h = absurd (ground arith)
  find_secret_sound (g ∷ gs) found h = elim (Bool-cases (g.secret == secret)) [
    | inl e ↦
        let same : (g, none) ≡ found = ground arith in
        subst (λ f. In f.0 (g ∷ gs) × Opens secret f) same
          (inl refl, (set, (eq_iff g.secret secret).0 e))
    | inr e ↦ elim (Option-cases (find_subgroup_secret g.subgroups secret)) [
      | inl none_there ↦
          let (m, opens) = find_secret_sound gs found (ground arith) in (inr m, opens)
      | inr (s, there) ↦
          let same : (g, some s) ≡ found = ground arith in
          subst (λ f. In f.0 (g ∷ gs) × Opens secret f) same
            (inl refl, with_secret (find_subgroup_secret_sound g.subgroups secret s there))
    ]
  ]

-- A secret that `FindBySecret` accepts is not empty, and it is the secret of the group that it
-- gives, or of the subgroup of that group that it gives; the group is one of the configured ones.
-- So a group or a subgroup without a secret is open to no one.
pub find_by_secret_sound :
    (groups : List GroupConfig) (secret : String) (found : GroupConfig × Option SubgroupConfig)
    → find_by_secret groups secret ≡ some found
    → In found.0 groups × Opens secret found
unfolding find_by_secret
find_by_secret_sound groups secret found h = elim (Bool-cases (secret == "")) [
  | inl e ↦ absurd (ground arith)
  | inr e ↦
      find_secret_sound secret (λ q. absurd (ground (arith, eq_iff secret ""))) groups found
        (ground arith)
]
