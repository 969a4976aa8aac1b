-- ===== src/Forwarder/Binds.antt =====
-- What a bind does, and where the forwarder listens.
use wrapguard.Forwarder.{
  Listener, PortForwarder, lookup_port, Listens, address_of, localhost, enter, failed_call,
  fall_back, handle_bind, running, handle_message,
}
use wrapguard.Ipc.{IpcMessage}
use wrapguard.Prelude.{
  eqb_ℤ-eq, ne-eqb_ℤ, eqb_ℤ_refl, some_injective, ◌≡◌, ◌≢◌, refl, sym, subst, Bool, true, false,
  List, [], ◌∷◌, none, some, ◌⊎◌, inl, inr, eqb_ℤ, ◌=t=◌, Bool-cases, Option-cases, Text, codes, ℤ,
  All,
}

-- A listener on the address of the tunnel or on that of the local host, at its port.
abbrev pub IsLocal : Text → ℤ → Listener → Type 0
IsLocal our_ip port l =
    (l.address ≡ address_of our_ip port) ⊎ (l.address ≡ address_of localhost port)

abbrev pub AreLocal : Text → List (ℤ × Listener) → Type 0
AreLocal our_ip m = All (λ (e : ℤ × Listener). IsLocal our_ip e.0 e.1) m

-- What a bind that is made leaves behind.
pub record Binds (our_ip : Text) (port : ℤ) (pf pf' : PortForwarder) : Type 0 where
  pub listener : Listener
  pub bound : lookup_port port pf'.listeners ≡ some listener
  pub local : IsLocal our_ip port listener
  pub others : (q : ℤ) → q ≢ port → lookup_port q pf'.listeners ≡ lookup_port q pf.listeners
  pub again : (listens : Listens) → handle_bind listens our_ip port pf' ≡ (pf', false)

pub lookup_port-IsLocal :
    (our_ip : Text) (port : ℤ) (m : List (ℤ × Listener)) {l : Listener}
    → AreLocal our_ip m
    → lookup_port port m ≡ some l
    → IsLocal our_ip port l
unfolding lookup_port
lookup_port-IsLocal our_ip port [] a h = cc
lookup_port-IsLocal our_ip port ((p, k) ∷ m) {l} (a, rest) h = elim (Bool-cases (eqb_ℤ p port)) [
  | inl e ↦
      let same : k ≡ l = some_injective k l (rw (e, lookup_port) at h) in
      subst (IsLocal our_ip port) same (subst (λ (q : ℤ). IsLocal our_ip q k) (eqb_ℤ-eq p port e) a)
  | inr e ↦ lookup_port-IsLocal our_ip port m rest (rw (e, lookup_port) at h)
]

handle_bind_known :
    (our_ip : Text) (port : ℤ) (pf : PortForwarder) {l : Listener}
    → lookup_port port pf.listeners ≡ some l
    → (listens : Listens) → handle_bind listens our_ip port pf ≡ (pf, false)
unfolding handle_bind
handle_bind_known our_ip port pf e listens = rw (e, handle_bind) refl

enter-Binds :
    (our_ip : Text) (port : ℤ) (address : Text) (pf : PortForwarder)
    → (address ≡ address_of our_ip port) ⊎ (address ≡ address_of localhost port)
    → Binds our_ip port pf (enter port address pf)
unfolding lookup_port
enter-Binds our_ip port address pf local =
    let here : lookup_port port (enter port address pf).listeners
        ≡ some (record { id = pf.calls; address = address }) =
      rw (eqb_ℤ_refl port, lookup_port) refl in
    record {
      listener = record { id = pf.calls; address = address };
      bound = here;
      local = local;
      others = λ q ne. rw (ne-eqb_ℤ port q (λ e. ne (sym e)), lookup_port) refl;
      again = handle_bind_known our_ip port (enter port address pf) here;
    }

-- A failed call of `net.Listen` does not matter to what a bind leaves behind.
after_failed_call :
    {our_ip : Text} {port : ℤ} {pf pf' : PortForwarder}
    → Binds our_ip port (failed_call pf) pf'
    → Binds our_ip port pf pf'
after_failed_call b = record {
  listener = b.listener;
  bound = b.bound;
  local = b.local;
  others = b.others;
  again = b.again;
}

-- A bind that fails leaves the listeners alone.
pub record Fails (pf pf' : PortForwarder) : Type 0 where
  pub same_listeners : pf'.listeners ≡ pf.listeners
  pub same_held : pf'.held ≡ pf.held

-- Of an outcome of a bind.
abbrev pub Outcome : Text → ℤ → PortForwarder → PortForwarder × Bool → Type 0
Outcome our_ip port pf (pf', false) = Binds our_ip port pf pf'
Outcome our_ip port pf (pf', true) = Fails pf pf' × (lookup_port port pf.listeners ≡ none)

fall_back-Outcome :
    (listens : Listens) (our_ip : Text) (port : ℤ) (pf : PortForwarder)
    → lookup_port port pf.listeners ≡ none
    → Outcome our_ip port pf (fall_back listens port (failed_call pf))
unfolding fall_back
fall_back-Outcome listens our_ip port pf h =
    elim (Bool-cases (listens (failed_call pf).calls (address_of localhost port))) [
      | inl e ↦
          let bound : fall_back listens port (failed_call pf)
              ≡ (enter port (address_of localhost port) (failed_call pf), false) =
            rw (e, fall_back) refl in
          subst (Outcome our_ip port pf) (sym bound) (
            after_failed_call {pf = pf}
              (enter-Binds our_ip port (address_of localhost port) (failed_call pf) (inr refl)))
      | inr e ↦
          let failing : fall_back listens port (failed_call pf)
              ≡ (failed_call (failed_call pf), true) =
            rw (e, fall_back) refl in
          subst (Outcome our_ip port pf) (sym failing)
            (record { same_listeners = refl; same_held = refl }, h)
    ]

-- A bind of a port that returns no error leaves a listener for the port on the address of the tunnel
-- or on the local host, leaves every other port alone, and does nothing when it is repeated; one
-- that returns an error was for a port that had no listener, and leaves every listener alone.
pub handle_bind-Outcome :
    (listens : Listens) (our_ip : Text) (port : ℤ) (pf : PortForwarder)
    → AreLocal our_ip pf.listeners
    → Outcome our_ip port pf (handle_bind listens our_ip port pf)
unfolding handle_bind
handle_bind-Outcome listens our_ip port pf a = elim (Option-cases (lookup_port port pf.listeners)) [
  | inr (l, e) ↦
      subst (Outcome our_ip port pf) (sym (handle_bind_known our_ip port pf e listens)) (record {
        listener = l;
        bound = e;
        local = lookup_port-IsLocal our_ip port pf.listeners a e;
        others = λ q ne. refl;
        again = handle_bind_known our_ip port pf e;
      })
  | inl e ↦ elim (Bool-cases (listens pf.calls (address_of our_ip port))) [
    | inl f ↦
        let bound : handle_bind listens our_ip port pf
            ≡ (enter port (address_of our_ip port) pf, false) =
          rw (e, f, handle_bind) refl in
        subst (Outcome our_ip port pf) (sym bound)
          (enter-Binds our_ip port (address_of our_ip port) pf (inl refl))
    | inr f ↦ rw (e, f, handle_bind) (fall_back-Outcome listens our_ip port pf e)
  ]
]

enter-AreLocal :
    (our_ip : Text) (port : ℤ) (address : Text) (pf : PortForwarder)
    → (address ≡ address_of our_ip port) ⊎ (address ≡ address_of localhost port)
    → AreLocal our_ip pf.listeners
    → AreLocal our_ip (enter port address pf).listeners
enter-AreLocal our_ip port address pf h a = (h, a)

handle_bind-AreLocal :
    (listens : Listens) (our_ip : Text) (port : ℤ) (pf : PortForwarder)
    → AreLocal our_ip pf.listeners
    → AreLocal our_ip (handle_bind listens our_ip port pf).0.listeners
unfolding handle_bind fall_back
handle_bind-AreLocal listens our_ip port pf a =
    elim (Option-cases (lookup_port port pf.listeners)) [
      | inr (l, e) ↦ rw (e, handle_bind) a
      | inl e ↦ elim (Bool-cases (listens pf.calls (address_of our_ip port))) [
        | inl f ↦ rw (e, f, handle_bind) (inl refl, a)
        | inr f ↦ elim (Bool-cases (listens (failed_call pf).calls (address_of localhost port))) [
          | inl g ↦ rw (e, f, g, handle_bind, fall_back) (inr refl, a)
          | inr g ↦ rw (e, f, g, handle_bind, fall_back) a
        ]
      ]
    ]

pub handle_message-AreLocal :
    (listens : Listens) (our_ip : Text) (m : IpcMessage) (pf : PortForwarder)
    → AreLocal our_ip pf.listeners
    → AreLocal our_ip (handle_message listens our_ip m pf).listeners
unfolding handle_message
handle_message-AreLocal listens our_ip m pf a = elim (Bool-cases (m.type =t= codes "BIND")) [
  | inl e ↦ rw (e, handle_message) (handle_bind-AreLocal listens our_ip m.port pf a)
  | inr e ↦ rw (e, handle_message) a
]

pub running_injective : (x y : PortForwarder) → running x ≡ running y → x ≡ y
running_injective x y e = cc
