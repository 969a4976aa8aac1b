-- ===== src/Config/Parse/Lines.antt =====
-- What `ParseConfig` makes of the lines that its scanner has read: those that are blank or begin with
-- `#` change nothing, and the peers are counted by their headers. A `#` behind a value is part of the
-- value.
use wrapguard.Config.Fields.{Resolver, parse_interface_field, parse_peer_field}
use wrapguard.Config.Parse.{
  Sections, no_sections, with_current, open_section, set_current, key_value, parse_trimmed,
  parse_line, parse_lines, to_config,
}
use wrapguard.Go.Strings.{cut, has_prefix, has_suffix, inner, to_lower, trim_space}
use wrapguard.Prelude.{
  ℕ, ◌+◌, ◌≡◌, refl, sym, ◌∙◌, Bool, true, ◌&&◌, ◌||◌, not, List, [], ◌∷◌, ◌++◌, some, inl, inr,
  ◌=t=◌, if◌then◌else◌, Bool-cases, Option-cases, Text, codes, length, length-append, arith, ap,
}
use wrapguard.Result.{
  ok, ◌>>=◌, >>=-congr, wrap, >>=-eq-ok, ok_injective, interface_field, peer_field,
}

-- A line that is blank, or begins with `#` behind its spaces.
abbrev pub is_comment : Text → Bool
is_comment line = trim_space line =t= [] || has_prefix (trim_space line) b'#'

-- The lines that are not.
abbrev pub without_comments : List Text → List Text
without_comments [] = []
without_comments (line ∷ lines) =
    let rest = without_comments lines in if is_comment line then rest else line ∷ rest

parse_line-is_comment :
    (l : Resolver) (st : Sections) (line : Text)
    → is_comment line ≡ true
    → parse_line l st line ≡ ok st
unfolding parse_line
parse_line-is_comment l st line h = rw (h, parse_trimmed)

-- Of the lines that the scanner has read, those that are blank, and those that begin with `#` behind
-- spaces, can be left out: the sections, or the error, are the same.
pub parse_lines-without_comments :
    (lookup_ip : Resolver) (lines : List Text) (st : Sections)
    → parse_lines lookup_ip st lines ≡ parse_lines lookup_ip st (without_comments lines)
unfolding parse_lines
parse_lines-without_comments l [] st = refl
parse_lines-without_comments l (line ∷ lines) st = elim (Bool-cases (is_comment line)) [
  | inl e ↦ rw (e, parse_line-is_comment l st line e) (parse_lines-without_comments l lines st)
  | inr e ↦ rw e (
      >>=-congr (parse_line l st line) (λ s. parse_lines l s lines)
        (λ s. parse_lines l s (without_comments lines))
        (λ s. parse_lines-without_comments l lines s))
]

-- A line that opens a peer.
abbrev pub opens_peer : Text → Bool
opens_peer line =
    not (is_comment line)
    && (has_prefix (trim_space line) b'[' && has_suffix (trim_space line) b']')
    && to_lower (inner (trim_space line)) =t= codes "peer"

abbrev pub count_peers : List Text → ℕ
count_peers [] = 0
count_peers (line ∷ lines) = (if opens_peer line then 1 else 0) + count_peers lines

-- The peers read so far, the current one included.
abbrev peers_in : Sections → ℕ
peers_in st = length (with_current st.peers st.current)

open_section-peers_in :
    (st : Sections) (name : Text)
    → peers_in (open_section st name) ≡ peers_in st + (if name =t= codes "peer" then 1 else 0)
unfolding open_section
open_section-peers_in st name = elim (Bool-cases (name =t= codes "peer")) [
  | inl e ↦ rw e (length-append (with_current st.peers st.current) _)
  | inr e ↦ rw e (omega arith)
]

set_current-peers_in :
    (l : Resolver) (st : Sections) (key value : Text) {st' : Sections}
    → set_current l st key value ≡ ok st'
    → peers_in st' ≡ peers_in st
unfolding set_current
set_current-peers_in l st key value {st'} h = elim (Option-cases st.current) [
  | inl e ↦ ap peers_in (sym (ok_injective st st' (rw (e, set_current) at h)))
  | inr (p, e) ↦
      let h1 : (wrap (peer_field key) (parse_peer_field l p key value) >>= λ q.
      ok (record st { current = some q }))
          ≡ ok st' =
        ground (arith, e) in
      let (q, _, h2) = >>=-eq-ok (wrap (peer_field key) (parse_peer_field l p key value)) _ h1 in
      let same : length (st.peers ++ q ∷ []) ≡ length (st.peers ++ p ∷ []) =
        length-append st.peers (q ∷ []) ∙ sym (length-append st.peers (p ∷ [])) in
      ap peers_in (sym (ok_injective (record st { current = some q }) st' h2))
      ∙ same
      ∙ ap (λ c. length (with_current st.peers c)) (sym e)
]

key_value-peers_in :
    (l : Resolver) (st : Sections) (key value : Text) {st' : Sections}
    → key_value l st key value ≡ ok st'
    → peers_in st' ≡ peers_in st
unfolding key_value
key_value-peers_in l st key value {st'} h = elim (Bool-cases (st.section =t= codes "interface")) [
  | inl e ↦
      let (i, _, h1) =
        >>=-eq-ok (wrap (interface_field key) (parse_interface_field st.interface key value)) _
          (rw (e, key_value) at h) in
      ap peers_in (sym (ok_injective (record st { interface = i }) st' h1))
  | inr e ↦ elim (Bool-cases (st.section =t= codes "peer")) [
    | inl f ↦ set_current-peers_in l st key value (rw (e, f, key_value) at h)
    | inr f ↦ ap peers_in (sym (ok_injective st st' (rw (e, f, key_value) at h)))
  ]
]

parse_line-peers_in :
    (l : Resolver) (st : Sections) (line : Text) {st' : Sections}
    → parse_line l st line ≡ ok st'
    → peers_in st' ≡ peers_in st + (if opens_peer line then 1 else 0)
unfolding parse_line
parse_line-peers_in l st line {st'} h = elim (Bool-cases (is_comment line)) [
  | inl e ↦
      ap peers_in (sym (ok_injective st st' (rw (e, parse_trimmed) at h))) ∙ rw e (omega arith)
  | inr e ↦
      elim (Bool-cases (has_prefix (trim_space line) b'[' && has_suffix (trim_space line) b']')) [
        | inl f ↦
            ap peers_in (sym (ok_injective _ st' (rw (e, f, parse_trimmed) at h)))
            ∙ rw (e, f) (open_section-peers_in st (to_lower (inner (trim_space line))))
        | inr f ↦ elim (Option-cases (cut (trim_space line) b'=')) [
          | inl n ↦
              ap peers_in (sym (ok_injective st st' (rw (e, f, n, parse_trimmed) at h)))
              ∙ rw (e, f) (omega arith)
          | inr (x, c) ↦
              key_value-peers_in l st (trim_space x.0) (trim_space x.1)
                (rw (e, f, c, parse_trimmed) at h)
              ∙ rw (e, f) (omega arith)
        ]
      ]
]

parse_lines-peers_in :
    (l : Resolver) (lines : List Text) (st : Sections) {st' : Sections}
    → parse_lines l st lines ≡ ok st'
    → peers_in st' ≡ peers_in st + count_peers lines
unfolding parse_lines
parse_lines-peers_in l [] st {st'} h = ap peers_in (sym (ok_injective st st' h)) ∙ omega arith
parse_lines-peers_in l (line ∷ lines) st h =
    let (st1, e, h1) = >>=-eq-ok (parse_line l st line) (λ x. parse_lines l x lines) h in
    omega (arith, parse_line-peers_in l st line e, parse_lines-peers_in l lines st1 h1)

-- The lines of a file that parse have as many peers as headers `[Peer]`, in any case of letters.
parse_lines-count_peers :
    (lookup_ip : Resolver) (lines : List Text) {st : Sections}
    → parse_lines lookup_ip no_sections lines ≡ ok st
    → length (to_config st).peers ≡ count_peers lines
parse_lines-count_peers lookup_ip lines h =
    parse_lines-peers_in lookup_ip lines no_sections h ∙ omega arith
