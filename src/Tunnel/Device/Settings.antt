-- ===== src/Tunnel/Device/Settings.antt =====
-- What a reader of settings makes of the text for the device.
use wrapguard.Config.Parse.OneLine.{IsOneLine, AreOneLine}
use wrapguard.Go.Fmt.{show_ℤ, show-Lacks}
use wrapguard.Go.Strings.Laws.{Lacks, split-append}
use wrapguard.Go.Strings.{split, cut}
use wrapguard.Prelude.{
  ◌≡◌, ◌≢◌, refl, sym, ◌∙◌, ap, true, false, List, [], ◌∷◌, ◌++◌, append_assoc, append-nil, map,
  Option, some, ◌=t=◌, if◌then◌else◌, inl, inr, Bool-cases, Text, codes, All, All-append, ℤ, pos,
  negsuc, ltb_ℤ, arith,
}
use wrapguard.Structs.{PeerConfig, WireguardConfig}
use wrapguard.Tunnel.Device.{
  setting, optional_text, optional_number, allowed_text, peer_text, peers_text, ipc_config,
}

-- A reader: a setting for each line that is not empty.
abbrev read_lines : List Text → List (Option (Text × Text))
read_lines [] = []
read_lines (line ∷ lines) =
    let rest = read_lines lines in if line =t= [] then rest else cut line b'=' ∷ rest

abbrev pub read_settings : Text → List (Option (Text × Text))
read_settings text = read_lines (split text 10)

-- The settings of a configuration, in the order of the device's protocol.
abbrev some_text : Text → Text → List (Text × Text)
some_text key value = if value =t= [] then [] else (key, value) ∷ []

abbrev some_number : Text → ℤ → List (Text × Text)
some_number key n = if ltb_ℤ (pos 0) n then (key, show_ℤ n) ∷ [] else []

abbrev pub peer_settings : PeerConfig → List (Text × Text)
peer_settings p =
    (codes "public_key", p.public_key)
    ∷ (some_text (codes "preshared_key") p.preshared_key
        ++ (some_text (codes "endpoint") p.endpoint
            ++ (some_number (codes "persistent_keepalive_interval") p.persistent_keepalive
                ++ map (λ ip. (codes "allowed_ip", ip)) p.allowed_ips)))

abbrev pub peers_settings : List PeerConfig → List (Text × Text)
peers_settings [] = []
peers_settings (p ∷ ps) = peer_settings p ++ peers_settings ps

abbrev pub settings : WireguardConfig → List (Text × Text)
settings c =
    (codes "private_key", c.interface.private_key)
    ∷ (some_number (codes "listen_port") c.interface.listen_port ++ peers_settings c.peers)

-- A text and the settings that it writes out.
abbrev to_text : List (Text × Text) → Text
to_text [] = []
to_text ((k, v) ∷ es) = setting k v ++ to_text es

to_text-append : (xs ys : List (Text × Text)) → to_text (xs ++ ys) ≡ to_text xs ++ to_text ys
to_text-append [] ys = refl
to_text-append ((k, v) ∷ xs) ys =
    ap (λ (t : Text). setting k v ++ t) (to_text-append xs ys)
    ∙ sym (append_assoc (setting k v) (to_text xs) (to_text ys))

some_text-to_text : (key value : Text) → optional_text key value ≡ to_text (some_text key value)
some_text-to_text key value = elim (Bool-cases (value =t= [])) [
  | inl e ↦ rw e refl
  | inr e ↦ rw e (sym (append-nil (setting key value)))
]

some_number-to_text : (key : Text) (n : ℤ) → optional_number key n ≡ to_text (some_number key n)
some_number-to_text key n = elim (Bool-cases (ltb_ℤ (pos 0) n)) [
  | inl e ↦ rw e (sym (append-nil (setting key (show_ℤ n))))
  | inr e ↦ rw e refl
]

allowed_text-to_text :
    (ips : List Text) → allowed_text ips ≡ to_text (map (λ ip. (codes "allowed_ip", ip)) ips)
unfolding allowed_text
allowed_text-to_text [] = refl
allowed_text-to_text (ip ∷ ips) =
    ap (λ (t : Text). setting (codes "allowed_ip") ip ++ t) (allowed_text-to_text ips)

-- Two texts behind one another.
both :
    {a b : Text} (xs ys : List (Text × Text))
    → a ≡ to_text xs
    → b ≡ to_text ys
    → a ++ b ≡ to_text (xs ++ ys)
both {a} {b} xs ys f g =
    ap (λ (t : Text). t ++ b) f ∙ ap (λ (t : Text). to_text xs ++ t) g ∙ sym (to_text-append xs ys)

peer_text-to_text : (p : PeerConfig) → peer_text p ≡ to_text (peer_settings p)
unfolding peer_text
peer_text-to_text p =
    ap (λ (t : Text). setting (codes "public_key") p.public_key ++ t)
      (both _ _ (some_text-to_text (codes "preshared_key") p.preshared_key) (
        both _ _ (some_text-to_text (codes "endpoint") p.endpoint) (
          both _ _
            (some_number-to_text (codes "persistent_keepalive_interval") p.persistent_keepalive)
            (allowed_text-to_text p.allowed_ips))))

peers_text-to_text : (ps : List PeerConfig) → peers_text ps ≡ to_text (peers_settings ps)
unfolding peers_text
peers_text-to_text [] = refl
peers_text-to_text (p ∷ ps) =
    both (peer_settings p) (peers_settings ps) (peer_text-to_text p) (peers_text-to_text ps)

ipc_config-to_text : (c : WireguardConfig) → ipc_config c ≡ to_text (settings c)
unfolding ipc_config
ipc_config-to_text c =
    ap (λ (t : Text). setting (codes "private_key") c.interface.private_key ++ t)
      (both _ _ (some_number-to_text (codes "listen_port") c.interface.listen_port)
        (peers_text-to_text c.peers))

cut_first : (k v : Text) → Lacks b'=' k → cut (k ++ b'=' ∷ v) b'=' ≡ some (k, v)
unfolding cut
cut_first [] v l = ground arith
cut_first (c ∷ k) v (h, l) = ground (arith, cut_first k v l)

-- A key without `=` and a value, each on one line.
pub record IsSetting (e : Text × Text) : Type 0 where
  pub key_lacks : Lacks b'=' e.0
  pub key_line : Lacks 10 e.0
  pub value_line : Lacks 10 e.1

setting_line : (k v : Text) → IsSetting (k, v) → Lacks 10 (k ++ b'=' ∷ v)
setting_line k v h =
    All-append (λ c. c ≢ 10) k (b'=' ∷ v) h.key_line ((λ e. omega arith), h.value_line)

line_not_empty : (k v : Text) → (k ++ b'=' ∷ v =t= []) ≡ false
unfolding ◌=t=◌
line_not_empty [] v = refl
line_not_empty (c ∷ k) v = refl

read_settings-to_text :
    (es : List (Text × Text)) → All IsSetting es → read_settings (to_text es) ≡ map some es
unfolding split ◌=t=◌
read_settings-to_text [] h = refl
read_settings-to_text ((k, v) ∷ es) (h, hs) =
    let text : to_text ((k, v) ∷ es) ≡ (k ++ b'=' ∷ v) ++ 10 ∷ to_text es =
      append_assoc k (b'=' ∷ (v ++ 10 ∷ [])) (to_text es)
      ∙ ap (λ (t : Text). k ++ b'=' ∷ t) (append_assoc v (10 ∷ []) (to_text es))
      ∙ sym (append_assoc k (b'=' ∷ v) (10 ∷ to_text es)) in
    let lines =
      ap (λ (t : Text). split t 10) text
      ∙ split-append (k ++ b'=' ∷ v) (to_text es) 10 (setting_line k v h) in
    ap read_lines lines
    ∙ rw (line_not_empty k v, read_lines)
        (ap (λ (r : Option (Text × Text)). r ∷ read_settings (to_text es))
            (cut_first k v h.key_lacks)
          ∙ ap (λ (r : List (Option (Text × Text))). some (k, v) ∷ r) (read_settings-to_text es hs))

some_text-IsSetting :
    (key value : Text)
    → Lacks b'=' key
    → Lacks 10 key
    → Lacks 10 value
    → All IsSetting (some_text key value)
some_text-IsSetting key value e l v = elim (Bool-cases (value =t= [])) [
  | inl f ↦ rw f tt
  | inr f ↦ rw f (record { key_lacks = e; key_line = l; value_line = v }, tt)
]

show_ℤ-line : (n : ℤ) → ltb_ℤ (pos 0) n ≡ true → Lacks 10 (show_ℤ n)
unfolding show_ℤ
show_ℤ-line (pos n) h = show-Lacks n 10 (λ d. omega arith)
show_ℤ-line (negsuc n) h = ground arith

some_number-IsSetting :
    (key : Text) (n : ℤ) → Lacks b'=' key → Lacks 10 key → All IsSetting (some_number key n)
some_number-IsSetting key n e l = elim (Bool-cases (ltb_ℤ (pos 0) n)) [
  | inl f ↦ rw f (record { key_lacks = e; key_line = l; value_line = show_ℤ-line n f }, tt)
  | inr f ↦ rw f tt
]

allowed-IsSetting :
    (ips : List Text)
    → All (Lacks 10) ips
    → All IsSetting (map (λ ip. (codes "allowed_ip", ip)) ips)
allowed-IsSetting [] h = tt
allowed-IsSetting (ip ∷ ips) (h, hs) = (
  record { key_lacks = ground arith; key_line = ground arith; value_line = h },
  allowed-IsSetting ips hs,
)

peer_settings-IsSetting : (p : PeerConfig) → IsOneLine p → All IsSetting (peer_settings p)
peer_settings-IsSetting p h = (
  record { key_lacks = ground arith; key_line = ground arith; value_line = h.public_line },
  All-append IsSetting (some_text (codes "preshared_key") p.preshared_key) _
      (some_text-IsSetting (codes "preshared_key") p.preshared_key (ground arith) (ground arith)
        h.preshared_line)
      (All-append IsSetting (some_text (codes "endpoint") p.endpoint) _
        (some_text-IsSetting (codes "endpoint") p.endpoint (ground arith) (ground arith)
          h.endpoint_line)
        (All-append IsSetting
          (some_number (codes "persistent_keepalive_interval") p.persistent_keepalive) _
          (some_number-IsSetting (codes "persistent_keepalive_interval") p.persistent_keepalive
            (ground arith) (ground arith))
          (allowed-IsSetting p.allowed_ips h.allowed_lines))),
)

peers_settings-IsSetting :
    (ps : List PeerConfig) → All IsOneLine ps → All IsSetting (peers_settings ps)
peers_settings-IsSetting [] h = tt
peers_settings-IsSetting (p ∷ ps) (h, hs) =
    All-append IsSetting (peer_settings p) (peers_settings ps) (peer_settings-IsSetting p h)
      (peers_settings-IsSetting ps hs)

pub read_settings-ipc_config :
    (c : WireguardConfig) → AreOneLine c → read_settings (ipc_config c) ≡ map some (settings c)
read_settings-ipc_config c h =
    ap read_settings (ipc_config-to_text c)
    ∙ read_settings-to_text (settings c) (
      record { key_lacks = ground arith; key_line = ground arith; value_line = h.key_line },
      All-append IsSetting (some_number (codes "listen_port") c.interface.listen_port)
          (peers_settings c.peers)
          (some_number-IsSetting (codes "listen_port") c.interface.listen_port (ground arith)
            (ground arith))
          (peers_settings-IsSetting c.peers h.peer_lines),
    )
