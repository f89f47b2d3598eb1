-- ===== src/Server/Admission.antt =====
-- Which sessions are admitted.
use wg_kotlin.Base.{
  ◌<◌, ◌≡◌, refl, sym, ap, subst, ◌⊎◌, inl, inr, Bool, true, false, Option, none, some, List, ◌∷◌,
  arith, leb, Bool-cases, length, Result, ok, err, Result-cases,
}
use wg_kotlin.Protocol.{TunSessionConfig}
use wg_kotlin.Text.{Str}
use wg_kotlin.Validation.{Os, Rejection, validate_config}
use wg_kotlin.Validation.Config.{IsConfig, validate_config_iff}
use wg_kotlin.Platform.Commands.{contains}
use wg_kotlin.Server.{
  Status, ClientPayload, config_message, outgoing_packet, shutdown, session, reserve, normalized,
  canonical,
}

-- The conditions of an admission, and what it does.
pub record Admitted (os : Os) (shutting_down : Bool)
    (first : Option (Result Status (Option ClientPayload))) (sessions : List Str)
    (given : TunSessionConfig) (sessions' : List Str) : Type 0 where
  pub config : TunSessionConfig
  pub up : shutting_down ≡ false
  pub asked : first ≡ some (ok (some (config_message config)))
  pub valid : IsConfig os config
  pub fresh : contains sessions (canonical os config.interface_name) ≡ false
  pub room : length sessions < 16
  pub hands_on : given ≡ normalized os config
  pub reserves : sessions' ≡ canonical os config.interface_name ∷ sessions

abbrev pub Outcome :
    Os
    → Bool
    → Option (Result Status (Option ClientPayload))
    → List Str
    → Result Status TunSessionConfig × List Str
    → Type 0
Outcome os shutting_down first sessions (ok given, sessions') =
    Admitted os shutting_down first sessions given sessions'
Outcome os shutting_down first sessions (err s, sessions') =
    (sessions' ≡ sessions)
    × ((given : TunSessionConfig) (after : List Str)
        → ¬ Admitted os shutting_down first sessions given after)

asked_config :
    (config : TunSessionConfig) → Option (Result Status (Option ClientPayload)) → TunSessionConfig
asked_config other (some (ok (some (config_message config)))) = config
asked_config other _ = other

module _ (os : Os) (config : TunSessionConfig) (sessions : List Str) where
  first_config : Option (Result Status (Option ClientPayload))
  first_config = some (ok (some (config_message config)))

  same_config :
      {given : TunSessionConfig} {after : List Str}
      (h : Admitted os false first_config sessions given after)
      → h.config ≡ config
  unfolding asked_config first_config
  same_config h = sym (ap (asked_config config) h.asked)

  reserved-Outcome :
      IsConfig os config
      → Outcome os false first_config sessions (session os false first_config sessions)
  unfolding session first_config reserve
  reserved-Outcome valid =
      let accepted : validate_config os config ≡ ok tt = (validate_config_iff os config).1 valid in
      elim (Bool-cases (contains sessions (canonical os config.interface_name))) [
        | inl active ↦
            rw (accepted, active)
              (refl, λ given after h. absurd (ground (arith, active, h.fresh, same_config h)))
        | inr fresh ↦ elim (Bool-cases (leb 16 (length sessions))) [
          | inl full ↦
              rw (accepted, fresh, full)
                (refl, λ given after h. absurd (ground (arith, full, h.room)))
          | inr room ↦
              rw (accepted, fresh, room)
                (record {
                  config = config;
                  up = refl;
                  asked = refl;
                  valid = valid;
                  fresh = fresh;
                  room = ground (arith, room);
                  hands_on = refl;
                  reserves = refl;
                })
        ]
      ]

  config-Outcome : Outcome os false first_config sessions (session os false first_config sessions)
  unfolding session first_config
  config-Outcome = go (Result-cases (validate_config os config))
    where
      go :
          ((u : Unit {0}) × (validate_config os config ≡ ok u))
            ⊎ ((e : Rejection) × (validate_config os config ≡ err e))
          → Outcome os false first_config sessions (session os false first_config sessions)
      go (inl (u, e)) = reserved-Outcome ((validate_config_iff os config).0 e)
      go (inr (r, e)) = rw e (
        refl,
        λ given after h. absurd (
            ground (
              arith,
              e,
              (validate_config_iff os config).1 (subst (IsConfig os) (same_config h) h.valid),
            )),
      )

pub session-Outcome :
    (os : Os) (shutting_down : Bool) (first : Option (Result Status (Option ClientPayload)))
    (sessions : List Str)
    → Outcome os shutting_down first sessions (session os shutting_down first sessions)
unfolding session first_config
session-Outcome os true first sessions = (refl, λ given after h. absurd (ground (arith, h.up)))
session-Outcome os false none sessions = (refl, λ given after h. absurd (ground (arith, h.asked)))
session-Outcome os false (some (err s)) sessions =
    (refl, λ given after h. absurd (ground (arith, h.asked)))
session-Outcome os false (some (ok none)) sessions =
    (refl, λ given after h. absurd (ground (arith, h.asked)))
session-Outcome os false (some (ok (some (outgoing_packet packet)))) sessions =
    (refl, λ given after h. absurd (ground (arith, h.asked)))
session-Outcome os false (some (ok (some (shutdown b)))) sessions =
    (refl, λ given after h. absurd (ground (arith, h.asked)))
session-Outcome os false (some (ok (some (config_message config)))) sessions =
    config-Outcome os config sessions
