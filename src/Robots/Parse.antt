-- ===== src/Robots/Parse.antt =====
-- robots.ts, `parseRobotsTxt`: the policy that a document sets for one user agent.
pub mod Sound
mod Tests
use webprobe.Base.{
  zero, ℕ, zero, suc, Bool, true, false, not, ◌&&◌, Option, none, some, List, [], ◌∷◌, ◌++◌, length,
  filter, if◌then◌else◌, eqb, ltb, ◌==◌, add, contains,
}
use webprobe.Base.Text.{Text, codes, text_key, is_empty}
use webprobe.Contracts.Products.{trim}
use webprobe.Robots.Escapes.{normalize_percent_escapes}
use webprobe.Robots.Glob.{star}
use webprobe.Robots.Allowed.{
  Directive, allow, disallow, RobotsRule, RobotsPolicy, UnavailableReason, document_too_large,
  document_size_unconfirmed, too_many_rules, rule_too_long, too_many_wildcards, invalid_rule,
  max_rules, max_rule_bytes, max_wildcards, byte_length,
}

pub record RobotsGroup : Type 0 where
  pub agents : List Text
  pub rules : List RobotsRule

abbrev pub max_robots_bytes : ℕ
max_robots_bytes = 65_536

abbrev pub unavailable_policy : UnavailableReason → RobotsPolicy
unavailable_policy reason = record { rules = []; sitemaps = []; unavailable_reason = some reason }

abbrev pub starts_line_feed : Text → Bool
starts_line_feed [] = false
starts_line_feed (c ∷ s) = eqb c 10

abbrev pub push_first : ℕ → List Text → List Text
push_first c [] = (c ∷ []) ∷ []
push_first c (line ∷ lines) = (c ∷ line) ∷ lines

-- `text.split(/\r?\n/)`
pub split_lines : Text → List Text
split_lines [] = [] ∷ []
split_lines (c ∷ s) =
    let rest = split_lines s in
    if eqb c 10
    then [] ∷ rest
    else if eqb c 13 && starts_line_feed s
    then rest
    else push_first c rest

-- `text.split(sign, 1)[0]`
abbrev pub until : ℕ → Text → Text
until sign [] = []
until sign (c ∷ s) = let rest = until sign s in if eqb c sign then [] else c ∷ rest

-- The texts before and after the first `:`, if there is one.
abbrev pub cut_colon : Text → Option (Text × Text)
cut_colon [] = none
cut_colon (c ∷ s) = elim (eqb c 58) [
  | true ↦ some ([], s)
  | false ↦ elim (cut_colon s) [ none ↦ none | some (key, value) ↦ some (c ∷ key, value) ]
]

abbrev pub take : ℕ → Text → Text
take n [] = []
take zero (c ∷ s) = []
take (suc n) (c ∷ s) = c ∷ take n s

-- The variables of the loop. The groups stand newest first; `group` is the newest, if any.
pub record Scan : Type 0 where
  pub groups : List RobotsGroup
  pub sitemaps : List Text
  pub seen_directive : Bool
  pub rule_count : ℕ

-- How a turn of the loop ends: an early return, or the next state.
pub data Turn : Type 0 where
  stop : UnavailableReason → Turn
  go_on : Scan → Turn

abbrev pub empty_scan : Scan
empty_scan = record { groups = []; sitemaps = []; seen_directive = false; rule_count = 0 }

abbrev pub new_group : Text → RobotsGroup
new_group agent = record { agents = agent ∷ []; rules = [] }

abbrev pub add_agent : Text → Scan → Scan
add_agent agent st = elim st.groups [
  | [] ↦ record st { groups = new_group agent ∷ []; seen_directive = false }
  | group ∷ rest ↦
      if st.seen_directive
      then record st { groups = new_group agent ∷ group ∷ rest; seen_directive = false }
      else record st { groups = record group { agents = group.agents ++ agent ∷ [] } ∷ rest }
]

abbrev pub add_rule : RobotsRule → List RobotsGroup → List RobotsGroup
add_rule rule [] = []
add_rule rule (group ∷ rest) = record group { rules = group.rules ++ rule ∷ [] } ∷ rest

abbrev pub has_rules_value : Directive → Text → Bool
has_rules_value allow value = true
has_rules_value disallow value = not (is_empty value)

-- The tests of a rule from the count of the rules on, and its entry.
unfoldable pub check_rule : Directive → Text → Scan → Turn
check_rule directive value st =
    if ltb max_rules (suc st.rule_count)
    then stop too_many_rules
    else if ltb max_rule_bytes (byte_length value)
    then stop rule_too_long
    else if ltb max_wildcards (length (filter (λ c. eqb c star) value))
    then stop too_many_wildcards
    else (elim (normalize_percent_escapes value false) [
      | none ↦ stop invalid_rule
      | some pattern ↦
          if ltb max_rule_bytes (byte_length pattern)
          then stop rule_too_long
          else go_on (record st {
            rule_count = suc st.rule_count;
            groups = add_rule (record { directive = directive; pattern = pattern }) st.groups;
          })
    ])

unfoldable pub read_rule : Directive → Text → Scan → Turn
read_rule directive value st = elim st.groups [
  | [] ↦ go_on st
  | group ∷ rest ↦
      if has_rules_value directive value
      then check_rule directive value (record st { seen_directive = true })
      else go_on (record st { seen_directive = true })
]

abbrev pub add_sitemap : Text → Scan → Scan
add_sitemap value st =
    if is_empty value then st else record st { sitemaps = st.sitemaps ++ take 2048 value ∷ [] }

module _ (lower_case : Text → Text) where
  abbrev pub normalize_agent : Text → Text
  normalize_agent value = until 47 (lower_case (trim value))

  abbrev pub read_field : Text → Text → Scan → Turn
  read_field key value st =
      if key == codes "sitemap"
      then go_on (add_sitemap value st)
      else if key == codes "user-agent"
      then go_on (add_agent (normalize_agent value) st)
      else if key == codes "allow"
      then read_rule allow value st
      else if key == codes "disallow"
      then read_rule disallow value st
      else go_on st

  -- One line; one that is empty without its comment has no colon either.
  abbrev pub read_line : Text → Scan → Turn
  read_line raw st = elim (cut_colon (trim (until 35 raw))) [
    | none ↦ go_on st
    | some (key, value) ↦ read_field (lower_case (trim key)) (trim value) st
  ]

  unfoldable pub read_lines : List Text → Scan → Turn
  read_lines [] st = go_on st
  read_lines (raw ∷ rest) st = elim (read_line raw st) [
    | stop reason ↦ stop reason
    | go_on next ↦ read_lines rest next
  ]

-- `item.agents.includes(token)`
abbrev pub with_agent : Text → List RobotsGroup → List RobotsGroup
with_agent token groups = filter (λ g. contains token g.agents) groups

abbrev pub selected : Text → List RobotsGroup → List RobotsGroup
selected token groups = elim (with_agent token groups) [
  | [] ↦ with_agent (star ∷ []) groups
  | group ∷ rest ↦ group ∷ rest
]

-- `groups.flatMap((item) => item.rules)`, where the groups stand newest first.
abbrev pub rules_of : List RobotsGroup → List RobotsRule
rules_of [] = []
rules_of (group ∷ rest) = rules_of rest ++ group.rules

abbrev pub unique : List Text → List Text → List Text
unique [] seen = seen
unique (s ∷ rest) seen = unique rest (add s seen)

abbrev pub take_maps : ℕ → List Text → List Text
take_maps n [] = []
take_maps zero (s ∷ rest) = []
take_maps (suc n) (s ∷ rest) = s ∷ take_maps n rest

abbrev pub policy_of : Text → Turn → RobotsPolicy
policy_of token (stop reason) = unavailable_policy reason
policy_of token (go_on st) = record {
  rules = rules_of (selected token st.groups);
  sitemaps = take_maps 32 (unique st.sitemaps []);
  unavailable_reason = none;
}

module _ (lower_case : Text → Text) where
  unfoldable pub parse_robots_txt : Text → Text → Bool → RobotsPolicy
  parse_robots_txt text user_agent complete_at_byte_limit =
      if ltb max_robots_bytes (byte_length text)
      then unavailable_policy document_too_large
      else if eqb (byte_length text) max_robots_bytes && not complete_at_byte_limit
      then unavailable_policy document_size_unconfirmed
      else policy_of (normalize_agent lower_case user_agent)
          (read_lines lower_case (split_lines text) empty_scan)
