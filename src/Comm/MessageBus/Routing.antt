-- ===== src/Comm/MessageBus/Routing.antt =====
-- Where calls go.
use croniot_iot.Prelude.{
  ◌≡◌, refl, ap, ◌∙◌, Bool, true, false, not, ◌&&◌, ◌||◌, Option, none, some, List, [], ◌∷◌, arith,
  Option-cases, inl, inr,
}
use croniot_iot.Comm.MessageBus.{
  Channel, server_auth_channel, prefer_uplink_channel, is_some, callbacks_from, callbacks,
}

-- The channels that support the server's authentication, marked.
abbrev pub auth_marks : List Channel → List Bool
auth_marks [] = []
auth_marks (ch ∷ channels) = ch.supports_server_auth ∷ auth_marks channels

abbrev pub none_marked : List Channel → List Bool
none_marked [] = []
none_marked (ch ∷ channels) = false ∷ none_marked channels

abbrev pub first_marked : List Channel → List Bool
first_marked [] = []
first_marked (ch ∷ channels) = true ∷ none_marked channels

callbacks_from-auth :
    (assigned : Bool) (channels : List Channel)
    → callbacks_from true assigned channels ≡ auth_marks channels
unfolding callbacks_from
callbacks_from-auth assigned [] = refl
callbacks_from-auth assigned (ch ∷ channels) =
    rw
      (callbacks_from-auth (assigned || (ch.supports_server_auth || (false && not assigned)))
        channels)
      (ground arith)

callbacks_from-no_auth :
    (channels : List Channel)
    → server_auth_channel channels ≡ none
    → (callbacks_from false false channels ≡ first_marked channels)
      × (callbacks_from false true channels ≡ none_marked channels)
unfolding callbacks_from server_auth_channel
callbacks_from-no_auth [] e = (refl, refl)
callbacks_from-no_auth (ch ∷ channels) e = ground (arith, callbacks_from-no_auth channels)

none-of_is_some {ℓ} : {A : Type ℓ} (o : Option A) → is_some o ≡ false → o ≡ none
none-of_is_some none e = refl
none-of_is_some (some a) e = absurd (ground arith)

server_auth_channel-auth :
    (channels : List Channel) (ch : Channel)
    → server_auth_channel channels ≡ some ch
    → ch.supports_server_auth ≡ true
unfolding server_auth_channel
server_auth_channel-auth [] ch e = absurd (ground arith)
server_auth_channel-auth (c ∷ channels) ch e = ground (arith, server_auth_channel-auth channels ch)

first-no_auth :
    (channels : List Channel) (ch : Channel)
    → server_auth_channel channels ≡ none
    → prefer_uplink_channel channels ≡ some ch
    → ch.supports_server_auth ≡ false
unfolding server_auth_channel prefer_uplink_channel
first-no_auth [] ch e p = absurd (ground arith)
first-no_auth (c ∷ channels) ch e p = ground arith

-- Whether a channel that was started with `onReady` connects, and so says that it is ready.
abbrev pub any_ready : (Channel → Bool) → List Bool → List Channel → Bool
any_ready connects [] channels = false
any_ready connects (mark ∷ marks) [] = false
any_ready connects (mark ∷ marks) (ch ∷ channels) =
    (mark && connects ch) || any_ready connects marks channels

any_ready-none_marked :
    (connects : Channel → Bool) (channels : List Channel)
    → any_ready connects (none_marked channels) channels ≡ false
any_ready-none_marked connects [] = refl
any_ready-none_marked connects (ch ∷ channels) = any_ready-none_marked connects channels

abbrev pub first_connects : (Channel → Bool) → List Channel → Bool
first_connects connects [] = false
first_connects connects (ch ∷ channels) = connects ch

ready_first :
    (connects : Channel → Bool) (channels : List Channel)
    → any_ready connects (first_marked channels) channels ≡ first_connects connects channels
ready_first connects [] = refl
ready_first connects (ch ∷ channels) =
    let quiet = any_ready-none_marked connects channels in ground (arith, quiet)

-- With a channel to the server, exactly the channels that support its authentication are started with
-- `onReady`. Without one, the first that is configured is alone, so that `onReady` is called exactly
-- if that one connects, whichever of the others do.
pub callbacks-auth :
    (connects : Channel → Bool) (channels : List Channel)
    → (is_some (server_auth_channel channels) ≡ true → callbacks channels ≡ auth_marks channels)
      × (is_some (server_auth_channel channels) ≡ false
          → (callbacks channels ≡ first_marked channels)
            × (any_ready connects (callbacks channels) channels ≡ first_connects connects channels))
unfolding callbacks
callbacks-auth connects channels = (
  λ e. rw e (callbacks_from-auth false channels),
  λ e.
      let marks =
        (callbacks_from-no_auth channels (none-of_is_some (server_auth_channel channels) e)).0 in
      rw e (marks, ap (λ ms. any_ready connects ms channels) marks ∙ ready_first connects channels),
)

prefer_uplink_channel-of_auth :
    (channels : List Channel) (c ch : Channel)
    → server_auth_channel channels ≡ some c
    → prefer_uplink_channel channels ≡ some ch
    → c ≡ ch
unfolding prefer_uplink_channel
prefer_uplink_channel-of_auth channels c ch found e =
    let e' : some c ≡ some ch = rw found at e in ground arith

-- The channel that the uplink prefers supports the server's authentication if any channel
-- does.
pub prefer_uplink_channel-auth :
    (channels : List Channel) (ch : Channel)
    → prefer_uplink_channel channels ≡ some ch
    → ch.supports_server_auth ≡ is_some (server_auth_channel channels)
prefer_uplink_channel-auth channels ch e = elim (Option-cases (server_auth_channel channels)) [
  | inl nothing ↦ rw nothing (first-no_auth channels ch nothing e)
  | inr (c, found) ↦
      let same : c ≡ ch = prefer_uplink_channel-of_auth channels c ch found e in
      rw found (rw (← same) (server_auth_channel-auth channels c found))
]
