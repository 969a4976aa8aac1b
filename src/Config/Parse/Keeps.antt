-- ===== src/Config/Parse/Keeps.antt =====
-- What the fields keep, `ParseConfig` keeps: an invariant of the interface and one of each peer, if the
-- functions on single fields keep them for values whose characters have a property.
use wrapguard.Config.Fields.{Resolver, parse_interface_field, parse_peer_field}
use wrapguard.Config.Parse.{
  new_interface, new_peer, Sections, no_sections, with_current, open_section, set_current,
  key_value, parse_trimmed, parse_line, parse_lines,
}
use wrapguard.Go.Strings.Laws.{All-right, cut-append, trim_space-All}
use wrapguard.Go.Strings.{cut, has_prefix, has_suffix, inner, to_lower, trim_space}
use wrapguard.Prelude.{
  ℕ, ◌≡◌, ◌&&◌, ◌||◌, List, [], ◌∷◌, Option, none, some, inl, inr, ◌=t=◌, Bool-cases, Option-cases,
  Text, codes, All, All-append, subst, arith,
}
use wrapguard.Result.{
  ok, ◌>>=◌, wrap, >>=-eq-ok, wrap-ok, ok_injective, interface_field, peer_field,
}
use wrapguard.Structs.{InterfaceConfig, PeerConfig}

abbrev pub CurrentHas : (PeerConfig → Type 0) → Option PeerConfig → Type 0
CurrentHas P none = Unit
CurrentHas P (some p) = P p

-- The invariants of the sections read so far.
pub record SoFar (I : InterfaceConfig → Type 0) (P : PeerConfig → Type 0) (st : Sections)
    : Type 0 where
  pub interface : I st.interface
  pub peers : All P st.peers
  pub current : CurrentHas P st.current

pub with_current-All :
    (P : PeerConfig → Type 0) (peers : List PeerConfig) (current : Option PeerConfig)
    → All P peers
    → CurrentHas P current
    → All P (with_current peers current)
with_current-All P peers none h c = h
with_current-All P peers (some p) h c = All-append P peers (p ∷ []) h (c, tt)

-- What the functions on single fields keep.
pub record Keeps (l : Resolver) (Q : ℕ → Type 0) (I : InterfaceConfig → Type 0)
    (P : PeerConfig → Type 0) : Type 0 where
  pub fresh_interface : I new_interface
  pub fresh_peer : P new_peer
  pub interface_field :
      (i : InterfaceConfig) (key value : Text) {j : InterfaceConfig}
      → All Q value
      → I i
      → parse_interface_field i key value ≡ ok j
      → I j
  pub peer_field :
      (p : PeerConfig) (key value : Text) {q : PeerConfig}
      → All Q value
      → P p
      → parse_peer_field l p key value ≡ ok q
      → P q

module _ (l : Resolver) (Q : ℕ → Type 0) (I : InterfaceConfig → Type 0) (P : PeerConfig → Type 0)
    (k : Keeps l Q I P) where
  pub no_sections-SoFar : SoFar I P no_sections
  no_sections-SoFar = record { interface = k.fresh_interface; peers = tt; current = tt }

  open_section-SoFar :
      (st : Sections) (name : Text) → SoFar I P st → SoFar I P (open_section st name)
  unfolding open_section
  open_section-SoFar st name s = elim (Bool-cases (name =t= codes "peer")) [
    | inl e ↦ rw e (record {
      interface = s.interface;
      peers = with_current-All P st.peers st.current s.peers s.current;
      current = k.fresh_peer;
    })
    | inr e ↦ rw e (record { interface = s.interface; peers = s.peers; current = s.current })
  ]

  set_current-SoFar :
      (st : Sections) (key value : Text) {st' : Sections}
      → All Q value
      → SoFar I P st
      → set_current l st key value ≡ ok st'
      → SoFar I P st'
  unfolding set_current
  set_current-SoFar st key value {st'} v s h = elim (Option-cases st.current) [
    | inl e ↦ subst (SoFar I P) (ok_injective st st' (rw (e, set_current) at h)) s
    | inr (p, e) ↦
        let h1 : (wrap (peer_field key) (parse_peer_field l p key value) >>= λ q.
        ok (record st { current = some q }))
            ≡ ok st' =
          ground (arith, e) in
        let (q, eq, h2) = >>=-eq-ok (wrap (peer_field key) (parse_peer_field l p key value)) _ h1 in
        let old : P p = subst (CurrentHas P) e s.current in
        subst (SoFar I P) (ok_injective (record st { current = some q }) st' h2) (record {
          interface = s.interface;
          peers = s.peers;
          current = k.peer_field p key value v old (wrap-ok (peer_field key) _ eq);
        })
  ]

  key_value-SoFar :
      (st : Sections) (key value : Text) {st' : Sections}
      → All Q value
      → SoFar I P st
      → key_value l st key value ≡ ok st'
      → SoFar I P st'
  unfolding key_value
  key_value-SoFar st key value {st'} v s h = elim (Bool-cases (st.section =t= codes "interface")) [
    | inl e ↦
        let (i, ei, h1) =
          >>=-eq-ok (wrap (interface_field key) (parse_interface_field st.interface key value)) _
            (rw (e, key_value) at h) in
        subst (SoFar I P) (ok_injective (record st { interface = i }) st' h1) (record {
          interface =
              k.interface_field st.interface key value v s.interface
                (wrap-ok (interface_field key) _ ei);
          peers = s.peers;
          current = s.current;
        })
    | inr e ↦ elim (Bool-cases (st.section =t= codes "peer")) [
      | inl f ↦ set_current-SoFar st key value v s (rw (e, f, key_value) at h)
      | inr f ↦ subst (SoFar I P) (ok_injective st st' (rw (e, f, key_value) at h)) s
    ]
  ]

  -- The value of a line has what the line has.
  cut-value :
      (line : Text) {a b : Text} → All Q line → cut line b'=' ≡ some (a, b) → All Q (trim_space b)
  cut-value line {a} {b} h c =
      let whole = cut-append line b'=' {a = a} {b = b} c in
      let parts = All-right Q a (b'=' ∷ b) (rw whole at h) in trim_space-All Q b parts.1

  parse_trimmed-SoFar :
      (st : Sections) (line : Text) {st' : Sections}
      → All Q line
      → SoFar I P st
      → parse_trimmed l st line ≡ ok st'
      → SoFar I P st'
  unfolding parse_trimmed
  parse_trimmed-SoFar st line {st'} v s h =
      elim (Bool-cases (line =t= [] || has_prefix line b'#')) [
        | inl e ↦ subst (SoFar I P) (ok_injective st st' (rw (e, parse_trimmed) at h)) s
        | inr e ↦ elim (Bool-cases (has_prefix line b'[' && has_suffix line b']')) [
          | inl f ↦
              subst (SoFar I P) (ok_injective _ st' (rw (e, f, parse_trimmed) at h))
                (open_section-SoFar st (to_lower (inner line)) s)
          | inr f ↦ elim (Option-cases (cut line b'=')) [
            | inl n ↦ subst (SoFar I P) (ok_injective st st' (rw (e, f, n, parse_trimmed) at h)) s
            | inr (x, c) ↦
                key_value-SoFar st (trim_space x.0) (trim_space x.1) (cut-value line v c) s
                  (rw (e, f, c, parse_trimmed) at h)
          ]
        ]
      ]

  pub parse_lines-SoFar :
      (lines : List Text) (st : Sections) {st' : Sections}
      → All (All Q) lines
      → SoFar I P st
      → parse_lines l st lines ≡ ok st'
      → SoFar I P st'
  unfolding parse_lines parse_line
  parse_lines-SoFar [] st {st'} v s h = subst (SoFar I P) (ok_injective st st' h) s
  parse_lines-SoFar (line ∷ lines) st (v, vs) s h =
      let (st1, e, h1) =
        >>=-eq-ok (parse_trimmed l st (trim_space line)) (λ x. parse_lines l x lines) h in
      parse_lines-SoFar lines st1 vs
        (parse_trimmed-SoFar st (trim_space line) (trim_space-All Q line v) s e) h1
