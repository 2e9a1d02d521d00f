-- ===== src/ApiServer/Status.antt =====
-- StatusRouter (packages/apiserver/src/routes/statusrouter.ts): services are switched on and off by
-- the status in their settings. Redis is a parameter: here a service's settings are its agent, since
-- the rest is written back as it was read. A SET that does not answer OK has written nothing.
pub mod Laws
pub mod Tests
use faculty_auxie_mm.MagicBox.Grid.{thrown}
use faculty_auxie_mm.ApiServer.Config.{
  AgentConfiguration, Response, sent, thrown, could_not_save, already_in_state, invalid_state,
}
use faculty_auxie_mm.Prelude.Text.{Text, text_eq, codes}
use faculty_auxie_mm.Prelude.{
  ◌≡◌, ◌∷◌, if◌then◌else◌, ◌||◌, none, some, true, false, [], List, Option, Bool, not,
}

pub record AgentSettings : Type 1 where
  pub State : Type 0
  pub agent : State → Text → Option AgentConfiguration
  pub set_agent : Text → AgentConfiguration → State → State × Bool
  pub agent_written :
      (k j : Text) (c : AgentConfiguration) (s : State)
      → (set_agent k c s).1 ≡ true
      → agent (set_agent k c s).0 j ≡ (if text_eq k j then some c else agent s j)
  pub agent_refused :
      (k : Text) (c : AgentConfiguration) (s : State)
      → (set_agent k c s).1 ≡ false
      → (set_agent k c s).0 ≡ s

abbrev pub is_state : Text → Bool
is_state state = text_eq state (codes "started") || text_eq state (codes "stopped")

module _ (settings : AgentSettings) where
  abbrev pub state_written : settings.State × Bool → settings.State × Response
  state_written (s, true) = (s, sent)
  state_written (s, false) = (s, could_not_save)

  -- settings that are missing are read as null, whose agent cannot be read
  abbrev pub set_state :
      Text → Text → Option AgentConfiguration → settings.State → settings.State × Response
  set_state agent state none s = (s, thrown)
  set_state agent state (some c) s =
      if text_eq c.status state
      then (s, already_in_state)
      else if not (is_state state)
      then (s, invalid_state)
      else state_written (settings.set_agent agent (record c { status = state }) s)

  -- setAgentState
  unfoldable pub set_agent_state : Text → Text → settings.State → settings.State × Response
  set_agent_state agent state s = set_state agent state (settings.agent s agent) s

  -- listAgentState, of the four services' names; none where it throws
  unfoldable pub list_agent_state : List Text → settings.State → Option (List (Text × Text))
  list_agent_state [] s = some []
  list_agent_state (agent ∷ agents) s =
      let rest = list_agent_state agents s in
      elim (settings.agent s agent) [
        | none ↦ none
        | some c ↦ elim rest [ none ↦ none | some states ↦ some ((agent, c.status) ∷ states) ]
      ]
