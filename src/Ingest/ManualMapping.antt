-- ===== src/Ingest/ManualMapping.antt =====
-- backend/app/providers/id_mapping.py: an administrator binds a source's name to a team.
use betpulse.Prelude.{ℕ, Option, none, some, ◌∷◌, not, is_some, select}
use betpulse.Ingest.Action.{
  Action, unmapped_entity, integrity_error, gets, modify, raise_if, ◌>>=◌, ◌>>◌,
}
use betpulse.Ingest.Seasons.{Text}
use betpulse.Ingest.Model.{TeamAlias, Names}
use betpulse.Ingest.Mapping.{
  is_unmapped, is_taken, alias_of, team_of, or_else, add_alias, update_alias,
}

-- `alias.team_id = team.id`, and the external id where one is given.
abbrev pub rebind : ℕ → Option ℕ → TeamAlias → TeamAlias
rebind team_id external_id a = record a {
  team_id = team_id;
  external_id = or_else external_id a.external_id;
}

abbrev pub bind_alias : ℕ → Text → ℕ → Option ℕ → Option TeamAlias → Names → Names
bind_alias provider raw_name team_id external_id none =
    add_alias provider raw_name team_id external_id
bind_alias provider raw_name team_id external_id (some alias) =
    update_alias alias (rebind team_id external_id)

abbrev pub team_id_of : Option TeamAlias → Option ℕ
team_id_of none = none
team_id_of (some a) = some a.team_id

abbrev pub clear_unmapped : ℕ → Text → Names → Names
clear_unmapped provider raw_name n = record n {
  unmapped_teams = select (λ u. not (is_unmapped provider raw_name u)) n.unmapped_teams;
}

abbrev pub audit_mapping : ℕ → Text → ℕ → Option ℕ → Option ℕ → Names → Names
audit_mapping provider raw_name team_id previous external_id n = record n {
  mapped_events =
      record {
        provider = provider;
        raw_name = raw_name;
        team_id = team_id;
        previous_team_id = previous;
        external_id = external_id;
      }
      ∷ n.mapped_events;
}

unfoldable pub map_team : ℕ → Text → ℕ → Option ℕ → Action Names (Unit {0})
map_team provider raw_name team_id external_id = do
  team ← gets λ n. team_of n team_id
  raise_if (not (is_some team)) unmapped_entity
  alias ← gets λ n. alias_of n provider raw_name
  taken ← gets (is_taken provider raw_name external_id)
  raise_if taken integrity_error
  modify (bind_alias provider raw_name team_id external_id alias)
  modify (clear_unmapped provider raw_name)
  modify (audit_mapping provider raw_name team_id (team_id_of alias) external_id)
