-- ===== src/ApiServer/Status/Laws.antt =====
-- What a change of a service's status does.
use mathlib.Core.Option.{some-injective}
use faculty_auxie_mm.ApiServer.Config.{sent, AgentConfiguration}
use faculty_auxie_mm.Prelude.Text.{Text, text_eq, text_eq_iff}
use faculty_auxie_mm.ApiServer.Status.{
  AgentSettings, Text, state_written, set_agent_state, sent, AgentConfiguration, set_state,
  is_state, text_eq,
}
use faculty_auxie_mm.Prelude.{
  ◌≡◌, ◌≢◌, if◌then◌else◌, ◌∙◌, none, some, true, false, refl, inl, inr, Option, Bool, Bool-cases,
  Option-cases, ap, sym,
}

module _ (settings : AgentSettings) where
  -- The status of a service, where it has settings.
  abbrev pub status_of : settings.State → Text → Option Text
  status_of s agent = elim (settings.agent s agent) [ none ↦ none | some c ↦ some c.status ]

  state_written_sent :
      (r : settings.State × Bool) → (state_written settings r).1 ≡ sent → r.1 ≡ true
  state_written_sent (s, true) h = refl
  state_written_sent (s, false) h = cc

  state_written-state : (r : settings.State × Bool) → (state_written settings r).0 ≡ r.0
  state_written-state (s, true) = refl
  state_written-state (s, false) = refl

  set_state_sent :
      (agent state : Text) (c : AgentConfiguration) (s : settings.State)
      → (set_state settings agent state (some c) s).1 ≡ sent
      → (text_eq c.status state ≡ false)
        × (is_state state ≡ true)
        × (state_written settings (settings.set_agent agent (record c { status = state }) s)
            ≡ set_state settings agent state (some c) s)
  set_state_sent agent state c s h = elim (Bool-cases (text_eq c.status state)) [
    | inl is ↦ absurd (cc (rw is at h))
    | inr other ↦ elim (Bool-cases (is_state state)) [
      | inl known ↦ (other, known, rw (other, known) refl)
      | inr unknown ↦ absurd (cc (rw (other, unknown) at h))
    ]
  ]

  status_after :
      (s s' : settings.State) (j : Text) (b : Bool) (c : AgentConfiguration)
      → settings.agent s' j ≡ (if b then some c else settings.agent s j)
      → status_of s' j ≡ (if b then some c.status else status_of s j)
  status_after s s' j b c e = elim (Bool-cases b) [
    | inl is ↦ rw is (ap (λ x. elim x [ none ↦ none | some a ↦ some a.status ]) (rw is at e))
    | inr other ↦
        rw other (ap (λ x. elim x [ none ↦ none | some a ↦ some a.status ]) (rw other at e))
  ]

  -- A change of a service's status that is answered with success is to `started` or `stopped` and from
  -- another status; the service has the new status afterwards, and every other service the one it had.
  set_agent_state_sent :
      (agent state : Text) (s : settings.State)
      → (set_agent_state settings agent state s).1 ≡ sent
      → (is_state state ≡ true)
        × (status_of s agent ≢ some state)
        × ((j : Text)
            → status_of (set_agent_state settings agent state s).0 j
              ≡ (if text_eq agent j then some state else status_of s j))
  unfolding set_agent_state
  set_agent_state_sent agent state s h = elim (Option-cases (settings.agent s agent)) [
    | inl missing ↦ absurd (cc (rw (missing, set_agent_state) at h))
    | inr (c, found) ↦
        let new = record c { status = state } in
        let ok = set_state_sent agent state c s (rw (found, set_agent_state) at h) in
        let taken =
          state_written_sent (settings.set_agent agent new s)
            (ap (λ r. r.1) ok.2 ∙ (rw (found, set_agent_state) at h)) in
        (
          ok.1,
          rw (found, status_of)
              (λ same.
                cc (ok.0, (text_eq_iff c.status state).1 (some-injective c.status state same))),
          λ j.
              rw
                (
                  found,
                  set_agent_state,
                  sym ok.2,
                  state_written-state (settings.set_agent agent new s),
                )
                (status_after s (settings.set_agent agent new s).0 j (text_eq agent j) new
                  (settings.agent_written agent j new s taken)),
        )
  ]
