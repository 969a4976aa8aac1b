-- ===== src/Binding/Refines.antt =====
-- The system as a queue with a bound in front of the loop of `Run`.
use wrapguard.Binding.Steps.{
  with_channel, queued, take_line, take_round-idle, take_round-next, Reaches,
}
use wrapguard.Binding.{
  System, new_system, Step, line, round, take_message, take_round, take_step, take_steps,
}
use wrapguard.Forwarder.Binds.{running_injective}
use wrapguard.Forwarder.{
  PortForwarder, new_port_forwarder, Listens, handle_message, message, running, run,
}
use wrapguard.Ipc.Accepts.{admitted, accepts, added, length-accepts}
use wrapguard.Ipc.{IpcMessage}
use wrapguard.Prelude.{
  ℕ, suc, ◌+◌, ◌-◌, ◌≤◌, ◌≡◌, refl, sym, ◌∙◌, ap, subst, false, List, [], ◌∷◌, ◌++◌, append_assoc,
  append-nil, map, Option, none, some, inl, inr, Bool-cases, Option-cases, List-cases, ltb,
  if◌then◌else◌, length, length-append, Text, arith,
}

-- The abstract queue: the messages that were let in, and how many of them were handed out.
pub record Fifo : Type 0 where
  pub accepted : List IpcMessage
  pub served : ℕ

abbrev pub empty_fifo : Fifo
empty_fifo = record { accepted = []; served = 0 }

-- A message is let in while fewer than the bound are waiting.
abbrev pub let_in : ℕ → IpcMessage → Fifo → Fifo
let_in bound m f =
    if ltb (length f.accepted - f.served) bound
    then record f { accepted = f.accepted ++ m ∷ [] }
    else f

abbrev pub fifo_step : (Text → Option IpcMessage) → ℕ → Step → Fifo → Fifo
fifo_step unmarshal bound (line text) f = elim (unmarshal text) [
  | none ↦ f
  | some m ↦ let_in bound m f
]
fifo_step unmarshal bound round f =
    if ltb f.served (length f.accepted) then record f { served = suc f.served } else f

abbrev pub fifo_steps : (Text → Option IpcMessage) → ℕ → List Step → Fifo → Fifo
fifo_steps unmarshal bound [] f = f
fifo_steps unmarshal bound (step ∷ steps) f =
    fifo_steps unmarshal bound steps (fifo_step unmarshal bound step f)

-- The system stands for the queue: what was handed out is what `Run` took, in order, what waits is
-- in the channel, within its bound, and the forwarder is that of a run on what was handed out.
pub record Refines (l : Listens) (ip : Text) (bound : ℕ) (f : Fifo) (s : System) : Type 0 where
  pub is_open : s.channel.closed ≡ false
  pub capacity : s.channel.capacity ≡ bound
  pub within : length s.channel.queue ≤ bound
  pub accepted : f.accepted ≡ s.taken ++ s.channel.queue
  pub served : f.served ≡ length s.taken
  pub runs : run l ip (map message s.taken) new_port_forwarder ≡ running s.forwarder

run-snoc :
    (listens : Listens) (our_ip : Text) (ms : List IpcMessage) (m : IpcMessage) (pf : PortForwarder)
    {pf' : PortForwarder}
    → run listens our_ip (map message ms) pf ≡ running pf'
    → run listens our_ip (map message (ms ++ m ∷ [])) pf
      ≡ running (handle_message listens our_ip m pf')
unfolding run
run-snoc listens our_ip [] m pf {pf'} h =
    ap (λ x. running (handle_message listens our_ip m x)) (running_injective pf pf' h)
run-snoc listens our_ip (k ∷ ms) m pf h =
    run-snoc listens our_ip ms m (handle_message listens our_ip k pf) h

let_in-admitted :
    (bound : ℕ) (m : IpcMessage) (f : Fifo) (waiting : ℕ)
    → length f.accepted - f.served ≡ waiting
    → let_in bound m f ≡ record f { accepted = f.accepted ++ admitted m waiting bound }
let_in-admitted bound m f waiting h = elim (Bool-cases (ltb waiting bound)) [
  | inl e ↦ rw (h, e, let_in, admitted) refl
  | inr e ↦ rw (h, e, let_in, admitted, append-nil f.accepted) refl
]

-- The queue lets in what the channel does.
fifo_line :
    (unmarshal : Text → Option IpcMessage) (bound : ℕ) (text : Text) (f : Fifo) (waiting : ℕ)
    → length f.accepted - f.served ≡ waiting
    → fifo_step unmarshal bound (line text) f
      ≡ record f { accepted = f.accepted ++ accepts unmarshal text waiting bound }
fifo_line u bound text f waiting h = elim (Option-cases (u text)) [
  | inl n ↦ rw (n, fifo_step, accepts, append-nil f.accepted) refl
  | inr (m, e) ↦ rw (e, fifo_step, accepts) (let_in-admitted bound m f waiting h)
]

fifo_round :
    (unmarshal : Text → Option IpcMessage) (bound : ℕ) (f : Fifo) (rest : ℕ)
    → length f.accepted ≡ f.served + suc rest
    → fifo_step unmarshal bound round f ≡ record f { served = suc f.served }
fifo_round u bound f rest h = ground arith

fifo_round-idle :
    (unmarshal : Text → Option IpcMessage) (bound : ℕ) (f : Fifo)
    → length f.accepted ≡ f.served
    → fifo_step unmarshal bound round f ≡ f
fifo_round-idle u bound f h = ground arith

line-Refines :
    (unmarshal : Text → Option IpcMessage) (listens : Listens) (our_ip text : Text) (bound : ℕ)
    (f : Fifo) (s : System)
    → Refines listens our_ip bound f s
    → Refines listens our_ip bound
        (fifo_step unmarshal bound (line text) f)
        (with_channel (added s.channel (accepts unmarshal text (length s.channel.queue) bound)) s)
line-Refines u listens our_ip text bound f s r =
    let waiting : length f.accepted - f.served ≡ length s.channel.queue =
      ground (arith, r.accepted, r.served, length-append s.taken s.channel.queue) in
    let more = accepts u text (length s.channel.queue) bound in
    let s' = with_channel (added s.channel more) s in
    let room = length-accepts u text (length s.channel.queue) bound r.within in
    let done : Refines listens our_ip bound (record f { accepted = f.accepted ++ more }) s' =
      record {
        is_open = r.is_open;
        capacity = r.capacity;
        within = omega (arith, room, length-append s.channel.queue more);
        accepted = ap (λ q. q ++ more) r.accepted ∙ append_assoc s.taken s.channel.queue more;
        served = r.served;
        runs = r.runs;
      } in
    subst (λ (x : Fifo). Refines listens our_ip bound x s')
      (sym (fifo_line u bound text f (length s.channel.queue) waiting)) done

round-Refines :
    (unmarshal : Text → Option IpcMessage) (listens : Listens) (our_ip : Text) (bound : ℕ)
    (f : Fifo) (s : System)
    → Refines listens our_ip bound f s
    → Refines listens our_ip bound (fifo_step unmarshal bound round f) (take_round listens our_ip s)
round-Refines u listens our_ip bound f s r =
    let total : length f.accepted ≡ f.served + length s.channel.queue =
      ground (arith, r.accepted, r.served, length-append s.taken s.channel.queue) in
    elim (List-cases s.channel.queue) [
      | inl e ↦
          let same : length f.accepted ≡ f.served = ground (arith, total, e) in
          rw (take_round-idle listens our_ip s r.is_open e, fifo_round-idle u bound f same) r
      | inr (m, ms, e) ↦
          let more : length f.accepted ≡ f.served + suc (length ms) = ground (arith, total, e) in
          let s' = take_message listens our_ip m (queued ms s) s in
          let done : Refines listens our_ip bound (record f { served = suc f.served }) s' = record {
            is_open = r.is_open;
            capacity = r.capacity;
            within = ground (arith, r.within, e);
            accepted =
                r.accepted ∙ ap (λ q. s.taken ++ q) e ∙ sym (append_assoc s.taken (m ∷ []) ms);
            served = ground (arith, r.served, length-append s.taken (m ∷ []));
            runs = run-snoc listens our_ip s.taken m new_port_forwarder r.runs;
          } in
          rw (take_round-next listens our_ip m ms s e, fifo_round u bound f (length ms) more) done
    ]

take_steps-Refines_from :
    (unmarshal : Text → Option IpcMessage) (listens : Listens) (our_ip : Text) (bound : ℕ)
    (steps : List Step) (f : Fifo) (s : System)
    → Refines listens our_ip bound f s
    → Reaches unmarshal listens our_ip steps s
        (Refines listens our_ip bound (fifo_steps unmarshal bound steps f))
unfolding take_steps take_step
take_steps-Refines_from u listens our_ip bound [] f s r = (s, refl, r)
take_steps-Refines_from u listens our_ip bound (line text ∷ steps) f s r =
    let more = accepts u text (length s.channel.queue) bound in
    let (s', e, r') =
      take_steps-Refines_from u listens our_ip bound steps _ (with_channel (added s.channel more) s)
        (line-Refines u listens our_ip text bound f s r) in
    let lets_in : ℕ → Option System =
      λ b. some (with_channel (added s.channel (accepts u text (length s.channel.queue) b)) s) in
    let taken = take_line u listens our_ip text s r.is_open ∙ ap lets_in r.capacity in
    (s', rw taken e, r')
take_steps-Refines_from u listens our_ip bound (round ∷ steps) f s r =
    take_steps-Refines_from u listens our_ip bound steps _ (take_round listens our_ip s)
      (round-Refines u listens our_ip bound f s r)

-- From the start, whatever lines the clients hand in and whenever `Run` takes a message, no send
-- panics, and the system stands for the queue with the bound 100: a message is lost only when 100
-- are waiting, `Run` takes the others in the order in which they came in, once each, and the
-- forwarder is that of a run on those that were taken.
pub take_steps-Refines :
    (unmarshal : Text → Option IpcMessage) (listens : Listens) (our_ip : Text) (steps : List Step)
    → Reaches unmarshal listens our_ip steps new_system
        (Refines listens our_ip 100 (fifo_steps unmarshal 100 steps empty_fifo))
unfolding run
take_steps-Refines u listens our_ip steps =
    let start : Refines listens our_ip 100 empty_fifo new_system = record {
      is_open = refl;
      capacity = refl;
      within = omega arith;
      accepted = refl;
      served = refl;
      runs = refl;
    } in
    take_steps-Refines_from u listens our_ip 100 steps empty_fifo new_system start
