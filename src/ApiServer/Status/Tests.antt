-- ===== src/ApiServer/Status/Tests.antt =====
-- Two services, one of which is stopped.
use faculty_auxie_mm.ApiServer.Status.Laws.{status_of}
use faculty_auxie_mm.ApiServer.Config.{AgentConfiguration, never}
use faculty_auxie_mm.Prelude.Dict.{Dict, lookup, insert, lookup-insert}
use faculty_auxie_mm.Prelude.Text.{Text, codes, text_Eq}
use faculty_auxie_mm.ApiServer.Status.{AgentSettings, set_agent_state}
use faculty_auxie_mm.Prelude.{◌≡◌, ◌∷◌, some, true, refl, []}

abbrev agents_in_memory : AgentSettings
agents_in_memory = record {
  State = Dict Text AgentConfiguration;
  agent = λ s k. lookup k s;
  set_agent = λ k c s. (insert k c s, true);
  agent_written = λ k j c s h. lookup-insert k j c s;
  agent_refused = λ k c s h. never h;
}

abbrev agent_of : Text → Text → AgentConfiguration
agent_of id status = record { id = id; status = status; name = id }

abbrev services : Dict Text AgentConfiguration
services =
    (codes "GATHERER", agent_of (codes "GATHERER") (codes "started"))
    ∷ (codes "DBSYNC", agent_of (codes "DBSYNC") (codes "started"))
    ∷ []

stop_dbsync :
    status_of agents_in_memory
      (set_agent_state agents_in_memory (codes "DBSYNC") (codes "stopped") services).0
      (codes "DBSYNC")
    ≡ some (codes "stopped")
unfolding set_agent_state
stop_dbsync = refl
