-- ===== src/Config.antt =====
-- internal/config/config.go: groups and their signup secrets, and the merge request workflow.
pub mod Secrets
use notmanytuples.Prelude.{
  String, Bool, true, false, not, ◌&&◌, ◌||◌, Option, none, some, List, [], ◌∷◌, if◌then◌else◌,
  ◌==◌, string_eq,
}
use notmanytuples.Prelude.Int.{pos, int_lt}
use notmanytuples.Prelude.Time.{Duration}

pub record MergeRequestsConfig : Type 0 where
  pub target_branch : String
  pub review_ttl : Duration
  pub robot_login : String

unfoldable pub get_target_branch : MergeRequestsConfig → String
get_target_branch c = if c.target_branch == "" then "main" else c.target_branch

pub record SubgroupConfig : Type 0 where
  pub name : String
  pub secret : String

pub record GroupConfig : Type 0 where
  pub name : String
  pub secret : String
  pub deadlines_url : String
  pub deadlines_format : String
  pub show_marks : Bool
  pub default : Bool
  pub subgroups : List SubgroupConfig

find_subgroup_in : List SubgroupConfig → String → Option SubgroupConfig
find_subgroup_in [] name = none
find_subgroup_in (s ∷ subgroups) name =
    if s.name == name then some s else find_subgroup_in subgroups name

unfoldable pub find_subgroup : GroupConfig → String → Option SubgroupConfig
unfolding find_subgroup_in
find_subgroup g name = find_subgroup_in g.subgroups name

unfoldable pub find_group : List GroupConfig → String → Option GroupConfig
find_group [] name = none
find_group (g ∷ groups) name = if g.name == name then some g else find_group groups name

-- The inner loop of `FindBySecret`.
unfoldable pub find_subgroup_secret : List SubgroupConfig → String → Option SubgroupConfig
find_subgroup_secret [] secret = none
find_subgroup_secret (s ∷ subgroups) secret =
    if s.secret == secret then some s else find_subgroup_secret subgroups secret

unfoldable pub find_secret :
    List GroupConfig → String → Option (GroupConfig × Option SubgroupConfig)
unfolding find_subgroup_secret
find_secret [] secret = none
find_secret (g ∷ groups) secret =
    if g.secret == secret then some (g, none) else elim (find_subgroup_secret g.subgroups secret) [
      | none ↦ find_secret groups secret
      | some s ↦ some (g, some s)
    ]

-- No group is the two nil pointers.
unfoldable pub find_by_secret :
    List GroupConfig → String → Option (GroupConfig × Option SubgroupConfig)
unfolding find_secret
find_by_secret groups secret = if secret == "" then none else find_secret groups secret

find_default : List GroupConfig → Option GroupConfig
find_default [] = none
find_default (g ∷ groups) = if g.default then some g else find_default groups

unfoldable pub find_default_group : List GroupConfig → Option GroupConfig
unfolding find_default
find_default_group groups = elim (find_default groups) [
  | some g ↦ some g
  | none ↦ elim groups [ [] ↦ none | g ∷ _ ↦ some g ]
]

-- `url.Parse`: the host and the scheme, or an error.
pub record Url : Type 0 where
  pub host : String
  pub scheme : String

-- Of the settings, those that `Validate` reads: an unset pointer is `none`.
pub record Config : Type 0 where
  pub gitlab_group_name : String
  pub telegram_proxy : Option String
  pub merge_requests : Option MergeRequestsConfig
  pub pull_merge_requests : Option Duration
  pub groups : List GroupConfig

module _ (parse_url : String → Option Url) where
  bad_proxy : String → Bool
  bad_proxy proxy = not (proxy == "") && elim (parse_url proxy) [
    | none ↦ true
    | some u ↦
        u.host == ""
        || not (u.scheme == "socks5") && not (u.scheme == "http") && not (u.scheme == "https")
  ]

  -- The error, or `none`.
  unfoldable pub validate : Config → Option String
  unfolding bad_proxy
  validate c =
      if c.gitlab_group_name == ""
      then some "gitlab.group.name is required"
      else if elim c.telegram_proxy [ none ↦ false | some proxy ↦ bad_proxy proxy ]
      then some "telegram.proxy must be a socks5:// or http(s):// URL"
      else elim c.merge_requests [
        | none ↦ none
        | some mr ↦
            if mr.robot_login == ""
            then some "gitlab.mergeRequests.robotLogin is required"
            else if int_lt mr.review_ttl (pos 0)
            then some "gitlab.mergeRequests.reviewTtl must not be negative"
            else elim c.pull_merge_requests [
              | none ↦ some "pullIntervals.mergeRequests is required in merge request mode"
              | some _ ↦ none
            ]
      ]
