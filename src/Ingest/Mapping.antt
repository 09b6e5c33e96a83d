-- ===== src/Ingest/Mapping.antt =====
-- backend/app/providers/id_mapping.py. The decomposition of Unicode (`unicodedata.normalize` and
-- `combining`) is a parameter; lower case is that of ASCII.
use betpulse.Prelude.{
  ℕ, suc, ◌+◌, Bool, true, false, Option, none, some, List, [], ◌∷◌, ◌==◌, ◌&&◌, ◌||◌, not, leb,
  find, is_some, is_some_eq, is_empty, map, update_where, if◌then◌else◌,
}
use betpulse.Ingest.Action.{
  Action, ok, err, unmapped_entity, integrity_error, pure, gets, or_raise, modify, raise_if, ◌>>=◌,
  ◌>>◌,
}
use betpulse.Ingest.Seasons.{Text, eqb_text, is_space, skip_spaces}
use betpulse.Ingest.Model.{League, Team, TeamAlias, UnmappedTeam, LeagueAlias, Names}

abbrev pub lower : ℕ → ℕ
lower ch = if leb b'A' ch && leb ch b'Z' then ch + 32 else ch

-- `[a-z0-9]`
abbrev pub is_plain : ℕ → Bool
is_plain ch = (leb b'a' ch && leb ch b'z') || (leb b'0' ch && leb ch b'9')

-- `re.sub(r"[^a-z0-9]+", " ", …)` and the strip: one space between two runs that stay. `started`
-- says that a character has stayed, `gap` that others followed it.
abbrev pub collapse : Bool → Bool → Text → Text
collapse started gap [] = []
collapse started gap (ch ∷ rest) = elim (is_plain ch) [
  | true ↦
      if started && gap then 32 ∷ ch ∷ collapse true false rest else ch ∷ collapse true false rest
  | false ↦ collapse started true rest
]

unfoldable pub normalize_name : (Text → Text) → Text → Text
normalize_name fold name = collapse false false (map lower (fold name))

-- `str.strip`
abbrev pub drop_trailing : Text → Text
drop_trailing [] = []
drop_trailing (ch ∷ rest) =
    let kept = drop_trailing rest in if is_space ch && is_empty kept then [] else ch ∷ kept

abbrev pub strip : Text → Text
strip text = drop_trailing (skip_spaces text)

abbrev pub same_option : Option ℕ → Option ℕ → Bool
same_option none none = true
same_option (some a) (some b) = a == b
same_option _ _ = false

abbrev pub or_else : {A : Type 0} → Option A → Option A → Option A
or_else none b = b
or_else (some a) b = some a

-- uq_team_alias, and uq_team_alias_external.
abbrev pub is_alias : ℕ → Text → TeamAlias → Bool
is_alias provider raw_name a = (a.provider == provider) && eqb_text a.alias raw_name

abbrev pub has_external : ℕ → ℕ → TeamAlias → Bool
has_external provider external_id a =
    (a.provider == provider) && is_some_eq a.external_id external_id

abbrev pub is_unmapped : ℕ → Text → UnmappedTeam → Bool
is_unmapped provider raw_name u = (u.provider == provider) && eqb_text u.raw_name raw_name

abbrev pub alias_of : Names → ℕ → Text → Option TeamAlias
alias_of n provider raw_name = find (is_alias provider raw_name) n.team_aliases

abbrev pub alias_by_id : Names → ℕ → Option ℕ → Option TeamAlias
alias_by_id n provider none = none
alias_by_id n provider (some external_id) = find (has_external provider external_id) n.team_aliases

abbrev pub team_of : Names → ℕ → Option Team
team_of n id = find (λ t. t.id == id) n.teams

-- `_record_unmapped`: INSERT … ON CONFLICT (provider, raw_name) DO UPDATE.
unfoldable pub record_unmapped :
    ℕ → Text → Option ℕ → Option ℕ → List UnmappedTeam → List UnmappedTeam
record_unmapped provider raw_name external_id league_hint [] =
    record {
      provider = provider;
      raw_name = raw_name;
      external_id = external_id;
      league_hint = league_hint;
      seen_count = 1;
    }
    ∷ []
record_unmapped provider raw_name external_id league_hint (u ∷ us) =
    if is_unmapped provider raw_name u
    then record u {
      seen_count = u.seen_count + 1;
      external_id = or_else external_id u.external_id;
      league_hint = or_else league_hint u.league_hint;
    }
      ∷ us
    else u ∷ record_unmapped provider raw_name external_id league_hint us

-- `external_id is not None and alias.external_id is None`, and the assignment.
abbrev pub learn : Option ℕ → TeamAlias → TeamAlias
learn external_id a = record a { external_id = or_else a.external_id external_id }

abbrev pub update_alias : TeamAlias → (TeamAlias → TeamAlias) → Names → Names
update_alias alias f n = record n {
  team_aliases = update_where (is_alias alias.provider alias.alias) f n.team_aliases;
}

abbrev pub resolve_alias : ℕ → Text → Option ℕ → Option ℕ → Option TeamAlias → Action Names ℕ
resolve_alias provider raw_name external_id league_hint none n = (
  err unmapped_entity,
  record n {
    unmapped_teams = record_unmapped provider raw_name external_id league_hint n.unmapped_teams;
  },
)
resolve_alias provider raw_name external_id league_hint (some alias) n =
    let learnt = update_alias alias (learn external_id) n in
    elim (team_of n alias.team_id) [
      | none ↦ (err unmapped_entity, learnt)
      | some team ↦ (ok team.id, learnt)
    ]

-- `resolve_team`: the team's identifier.
unfoldable pub resolve_team : ℕ → Text → Option ℕ → Option ℕ → Action Names ℕ
resolve_team provider raw_name external_id league_hint n =
    resolve_alias provider raw_name external_id league_hint
      (or_else (alias_by_id n provider external_id) (alias_of n provider raw_name)) n

abbrev pub is_league_alias : ℕ → ℕ → LeagueAlias → Bool
is_league_alias provider raw_code a = (a.provider == provider) && (a.alias == raw_code)

abbrev pub league_of : Names → ℕ → Option League
league_of n id = find (λ l. l.id == id) n.leagues

abbrev pub league_of_alias : Names → Option LeagueAlias → Option League
league_of_alias n none = none
league_of_alias n (some a) = league_of n a.league_id

unfoldable pub resolve_league : ℕ → ℕ → Action Names League
resolve_league provider raw_code n =
    or_raise (league_of_alias n (find (is_league_alias provider raw_code) n.league_aliases))
      unmapped_entity n

-- uq_team_alias_external, against every alias but this one.
abbrev pub is_taken : ℕ → Text → Option ℕ → Names → Bool
is_taken provider raw_name none n = false
is_taken provider raw_name (some external_id) n = is_some (
    find (λ a. has_external provider external_id a && not (is_alias provider raw_name a))
      n.team_aliases)

abbrev pub add_alias : ℕ → Text → ℕ → Option ℕ → Names → Names
add_alias provider raw_name team_id external_id n = record n {
  team_aliases =
      record { provider = provider; alias = raw_name; external_id = external_id; team_id = team_id }
      ∷ n.team_aliases;
}

-- `_ensure_team_alias`. A flush raises IntegrityError where another alias has the external id.
abbrev pub keep_alias : ℕ → Text → ℕ → Option ℕ → Option TeamAlias → Action Names (Unit {0})
keep_alias provider raw_name team_id external_id none = do
  taken ← gets (is_taken provider raw_name external_id)
  raise_if taken integrity_error
  modify (add_alias provider raw_name team_id external_id)
keep_alias provider raw_name team_id external_id (some alias) = do
  taken ← gets (is_taken provider raw_name external_id)
  raise_if (not (is_some alias.external_id) && taken) integrity_error
  modify (update_alias alias (learn external_id))

unfoldable pub ensure_team_alias : ℕ → Text → ℕ → Option ℕ → Action Names (Unit {0})
ensure_team_alias provider raw_name team_id external_id n =
    keep_alias provider raw_name team_id external_id (alias_of n provider raw_name) n

abbrev pub is_named : Text → Option ℕ → Team → Bool
is_named normalized country t =
    eqb_text t.normalized_name normalized && same_option t.country country

abbrev pub add_team : Text → Text → Option ℕ → Names → Names
add_team raw_name normalized country n = record n {
  teams =
      record {
        id = n.next_id;
        name = strip raw_name;
        normalized_name = normalized;
        country = country;
      }
      ∷ n.teams;
  next_id = suc n.next_id;
}

-- The team's identifier, and whether it was created.
abbrev pub named_team : Text → Text → Option ℕ → Option Team → Action Names (ℕ × Bool)
named_team raw_name normalized country (some team) n = (ok (team.id, false), n)
named_team raw_name normalized country none n =
    (ok (n.next_id, true), add_team raw_name normalized country n)

unfoldable pub get_or_create_canonical_team :
    (Text → Text) → ℕ → Text → Option ℕ → Option ℕ → Action Names (ℕ × Bool)
unfolding ensure_team_alias
get_or_create_canonical_team fold provider raw_name country external_id = do
  found ← gets λ n. find (is_named (normalize_name fold raw_name) country) n.teams
  team ← named_team raw_name (normalize_name fold raw_name) country found
  ensure_team_alias provider raw_name team.0 external_id
  pure team

abbrev pub add_league : ℕ → ℕ → ℕ → Option ℕ → Names → League × Names
add_league code name country season_start_month n =
    let league : League = record {
      id = n.next_id;
      code = code;
      name = name;
      country = some country;
      season_start_month = season_start_month;
    } in
    (league, record n { leagues = league ∷ n.leagues; next_id = suc n.next_id })

abbrev pub coded_league : ℕ → ℕ → ℕ → Option ℕ → Option League → Action Names (League × Bool)
coded_league code name country month (some league) n = (ok (league, false), n)
coded_league code name country month none n =
    let (league, n') = add_league code name country month n in (ok (league, true), n')

abbrev pub add_league_alias : ℕ → ℕ → ℕ → Names → Names
add_league_alias provider raw_code league_id n =
    if is_some (find (is_league_alias provider raw_code) n.league_aliases) then n else record n {
      league_aliases =
          record { provider = provider; alias = raw_code; league_id = league_id }
          ∷ n.league_aliases;
    }

unfoldable pub get_or_create_canonical_league :
    ℕ → ℕ → ℕ → ℕ → ℕ → Option ℕ → Action Names (League × Bool)
get_or_create_canonical_league provider code name raw_code country season_start_month = do
  found ← gets λ n. find (λ l. l.code == code) n.leagues
  league ← coded_league code name country season_start_month found
  modify (add_league_alias provider raw_code league.0.id)
  pure league
