-- ===== src/Forwarder/Leaks.antt =====
-- The forwarder leaves no listener open when it stops.
use wrapguard.Forwarder.{
  Listener, PortForwarder, new_port_forwarder, lookup_port, Listens, address_of, localhost,
  failed_call, fall_back, handle_bind, close_id, delete_port, close_all_listeners, Signal, done,
  message, Run, running, stopped, handle_message, run,
}
use wrapguard.Ipc.{IpcMessage}
use wrapguard.Prelude.{
  eqb_ℤ-ne, ℕ, ◌≡◌, ◌≢◌, refl, sym, ◌∙◌, ap, subst, List, [], ◌∷◌, inl, inr, ◌==◌, eqb_ℤ, ◌=t=◌,
  Bool-cases, Option-cases, Text, codes, ℤ, Memᴰ, Permᴰ, perm-SameMembers, mem_cons_cases, arith,
}

abbrev ids : List (ℤ × Listener) → List ℕ
ids [] = []
ids ((p, l) ∷ m) = l.id ∷ ids m

-- The listeners that the system holds open are those of the table.
abbrev pub IsTight : PortForwarder → Type 0
IsTight pf = pf.held ≡ ids pf.listeners

fall_back-IsTight :
    (listens : Listens) (port : ℤ) (pf : PortForwarder)
    → IsTight pf
    → IsTight (fall_back listens port pf).0
unfolding fall_back
fall_back-IsTight listens port pf h =
    elim (Bool-cases (listens pf.calls (address_of localhost port))) [
      | inl e ↦ rw (e, fall_back) (ap (◌∷◌ pf.calls) h)
      | inr e ↦ rw (e, fall_back) h
    ]

handle_bind-IsTight :
    (listens : Listens) (our_ip : Text) (port : ℤ) (pf : PortForwarder)
    → IsTight pf
    → IsTight (handle_bind listens our_ip port pf).0
unfolding handle_bind
handle_bind-IsTight listens our_ip port pf h = elim (Option-cases (lookup_port port pf.listeners)) [
  | inr (l, e) ↦ rw (e, handle_bind) h
  | inl e ↦ elim (Bool-cases (listens pf.calls (address_of our_ip port))) [
    | inl f ↦ rw (e, f, handle_bind) (ap (◌∷◌ pf.calls) h)
    | inr f ↦ rw (e, f, handle_bind) (fall_back-IsTight listens port (failed_call pf) h)
  ]
]

handle_message-IsTight :
    (listens : Listens) (our_ip : Text) (m : IpcMessage) (pf : PortForwarder)
    → IsTight pf
    → IsTight (handle_message listens our_ip m pf)
unfolding handle_message
handle_message-IsTight listens our_ip m pf h = elim (Bool-cases (m.type =t= codes "BIND")) [
  | inl e ↦ rw (e, handle_message) (handle_bind-IsTight listens our_ip m.port pf h)
  | inr e ↦ rw (e, handle_message) h
]

close_id-mem : (id : ℕ) (is : List ℕ) {x : ℕ} → Memᴰ x (close_id id is) → Memᴰ x is × (x ≢ id)
unfolding close_id
close_id-mem id [] m = elim m [ ]
close_id-mem id (i ∷ is) {x} m = elim (Bool-cases (i == id)) [
  | inl e ↦ let (n, ne) = close_id-mem id is (rw (e, close_id) at m) in (Memᴰ.tail n, ne)
  | inr e ↦ elim (mem_cons_cases (rw (e, close_id) at m)) [
    | inl same ↦ (Memᴰ.head same, λ f. ground (arith, same, f))
    | inr n ↦ let (k, ne) = close_id-mem id is n in (Memᴰ.tail k, ne)
  ]
]

delete_port-mem :
    (port : ℤ) (m : List (ℤ × Listener)) {e : ℤ × Listener}
    → Memᴰ e (delete_port port m)
    → Memᴰ e m × (e.0 ≢ port)
unfolding delete_port
delete_port-mem port [] m = elim m [ ]
delete_port-mem port ((p, l) ∷ es) m = elim (Bool-cases (eqb_ℤ p port)) [
  | inl e ↦ let (n, ne) = delete_port-mem port es (rw (e, delete_port) at m) in (Memᴰ.tail n, ne)
  | inr e ↦ elim (mem_cons_cases (rw (e, delete_port) at m)) [
    | inl same ↦ (
      Memᴰ.head same,
      λ f. absurd (eqb_ℤ-ne p port e (ap (λ (y : ℤ × Listener). y.0) (sym same) ∙ f)),
    )
    | inr n ↦ let (k, ne) = delete_port-mem port es n in (Memᴰ.tail k, ne)
  ]
]

-- What the loop leaves open was open, and is the listener of none of the entries.
close_all_listeners-held :
    (entries : List (ℤ × Listener)) (pf : PortForwarder) {x : ℕ}
    → Memᴰ x (close_all_listeners entries pf).held
    → Memᴰ x pf.held × ((e : ℤ × Listener) → Memᴰ e entries → x ≢ e.1.id)
unfolding close_all_listeners
close_all_listeners-held [] pf m = (m, λ e n. elim n [ ])
close_all_listeners-held ((port, l) ∷ entries) pf {x} m =
    let (n, others) = close_all_listeners-held entries _ m in
    let (k, ne) = close_id-mem l.id pf.held n in
    (
      k,
      λ e i. elim (mem_cons_cases i) [
        | inl same ↦ λ f. ne (f ∙ ap (λ (y : ℤ × Listener). y.1.id) same)
        | inr later ↦ others e later
      ],
    )

-- What the loop leaves in the table was there, at the port of none of the entries.
close_all_listeners-listeners :
    (entries : List (ℤ × Listener)) (pf : PortForwarder) {x : ℤ × Listener}
    → Memᴰ x (close_all_listeners entries pf).listeners
    → Memᴰ x pf.listeners × ((e : ℤ × Listener) → Memᴰ e entries → x.0 ≢ e.0)
unfolding close_all_listeners
close_all_listeners-listeners [] pf m = (m, λ e n. elim n [ ])
close_all_listeners-listeners ((port, l) ∷ entries) pf {x} m =
    let (n, others) = close_all_listeners-listeners entries _ m in
    let (k, ne) = delete_port-mem port pf.listeners n in
    (
      k,
      λ e i. elim (mem_cons_cases i) [
        | inl same ↦ λ f. ne (f ∙ ap (λ (y : ℤ × Listener). y.0) same)
        | inr later ↦ others e later
      ],
    )

ids-mem :
    (m : List (ℤ × Listener)) {x : ℕ}
    → Memᴰ x (ids m)
    → (e : ℤ × Listener) × Memᴰ e m × (x ≡ e.1.id)
ids-mem [] n = elim n [ ]
ids-mem ((p, l) ∷ m) n = elim (mem_cons_cases n) [
  | inl same ↦ ((p, l), Memᴰ.head refl, same)
  | inr later ↦ let (e, k, f) = ids-mem m later in (e, Memᴰ.tail k, f)
]

no_members {ℓ} : {A : Type ℓ} (xs : List A) → ((x : A) → ¬ Memᴰ x xs) → xs ≡ []
no_members [] h = refl
no_members (x ∷ xs) h = absurd (h x (Memᴰ.head refl))

-- A forwarder that holds nothing.
pub record IsEmpty (pf : PortForwarder) : Type 0 where
  pub no_listeners : pf.listeners ≡ []
  pub none_held : pf.held ≡ []

close_all_listeners-IsEmpty :
    (entries : List (ℤ × Listener)) (pf : PortForwarder)
    → Permᴰ entries pf.listeners
    → IsTight pf
    → IsEmpty (close_all_listeners entries pf)
close_all_listeners-IsEmpty entries pf order h =
    let s = perm-SameMembers order in
    record {
      no_listeners = no_members _ (λ x m.
          let (n, others) = close_all_listeners-listeners entries pf m in
          others x (s.from x n) refl);
      none_held = no_members _ (λ x m.
          let (n, others) = close_all_listeners-held entries pf m in
          let (e, k, f) = ids-mem pf.listeners (subst (Memᴰ x) h n) in others e (s.from e k) f);
    }

-- An iteration of Go over a map meets each entry once.
abbrev pub AreOrders : List Signal → Type 0
AreOrders [] = Unit
AreOrders (done order ∷ signals) =
    ((entries : List (ℤ × Listener)) → Permᴰ (order entries) entries) × AreOrders signals
AreOrders (message m ∷ signals) = AreOrders signals

-- What holds of a run.
abbrev pub Ends : Run → Type 0
Ends (running pf) = IsTight pf
Ends (stopped pf) = IsEmpty pf

run-Ends_from :
    (listens : Listens) (our_ip : Text) (signals : List Signal) (pf : PortForwarder)
    → AreOrders signals
    → IsTight pf
    → Ends (run listens our_ip signals pf)
unfolding run
run-Ends_from listens our_ip [] pf o h = h
run-Ends_from listens our_ip (done order ∷ signals) pf o h =
    close_all_listeners-IsEmpty (order pf.listeners) pf (o.0 pf.listeners) h
run-Ends_from listens our_ip (message m ∷ signals) pf o h =
    run-Ends_from listens our_ip signals (handle_message listens our_ip m pf) o
      (handle_message-IsTight listens our_ip m pf h)

-- If an iteration over the table meets each entry once, then whatever messages come and whatever
-- `net.Listen` answers, the listeners that the system holds open
-- are those of the table while the forwarder runs, and when its context is done it has closed every
-- one and emptied the table.
pub run-Ends :
    (listens : Listens) (our_ip : Text) (signals : List Signal)
    → AreOrders signals
    → Ends (run listens our_ip signals new_port_forwarder)
run-Ends listens our_ip signals o = run-Ends_from listens our_ip signals new_port_forwarder o refl
