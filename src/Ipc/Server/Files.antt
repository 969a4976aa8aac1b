-- ===== src/Ipc/Server/Files.antt =====
-- What the server leaves of its socket file.
use mathlib.Core.Bool.{false≢true}
use wrapguard.Go.Fmt.{show}
use wrapguard.Ipc.Server.{
  remove_at, IpcServer, remove_file, has_file, listen_unix, path_of, new_ipc_server,
  close_ipc_server,
}
use wrapguard.Ipc.{new_channel}
use wrapguard.Prelude.{
  ◌⊎◌, if◌then◌else◌, ℕ, ◌≡◌, refl, sym, ap, subst, ◌∙◌, Bool, true, false, List, [], ◌∷◌, ◌++◌,
  codes, Option, none, some, inl, inr, is_nil, ◌=t=◌, =t=_refl, Bool-cases, Text,
}

pub remove_file-has_file :
    (path : Text) (files : List Text) → has_file path (remove_file path files) ≡ false
unfolding remove_file has_file
remove_file-has_file path [] = refl
remove_file-has_file path (f ∷ files) = elim (Bool-cases (f =t= path)) [
  | inl e ↦ rw (e, remove_file) (remove_file-has_file path files)
  | inr e ↦ rw (e, remove_file) (rw (e, has_file) (remove_file-has_file path files))
]

pub remove_file-remove_file :
    (path : Text) (files : List Text)
    → remove_file path (remove_file path files) ≡ remove_file path files
unfolding remove_file
remove_file-remove_file path [] = refl
remove_file-remove_file path (f ∷ files) = elim (Bool-cases (f =t= path)) [
  | inl e ↦ rw (e, remove_file) (remove_file-remove_file path files)
  | inr e ↦
      rw (e, remove_file) (rw (e, remove_file) (ap (◌∷◌ f) (remove_file-remove_file path files)))
]

pub has_file_head : (path : Text) (files : List Text) → has_file path (path ∷ files) ≡ true
unfolding has_file
has_file_head path files = rw (=t=_refl path, has_file) refl

remove_file_head :
    (path : Text) (files : List Text) → remove_file path (path ∷ files) ≡ remove_file path files
unfolding remove_file
remove_file_head path files = rw (=t=_refl path, remove_file) refl

remove_file-absent :
    (path : Text) (files : List Text) → has_file path files ≡ false → remove_file path files ≡ files
unfolding remove_file has_file
remove_file-absent path [] h = refl
remove_file-absent path (f ∷ files) h = elim (Bool-cases (f =t= path)) [
  | inl e ↦ absurd (false≢true (sym (rw (e, has_file) at h)))
  | inr e ↦ rw (e, remove_file) (ap (◌∷◌ f) (remove_file-absent path files (rw (e, has_file) at h)))
]

-- The path of the socket, of the directory for temporary files and the number of the process.
abbrev pub socket_at : Text → ℕ → Text
socket_at temp_dir pid = temp_dir ++ codes "/wrapguard-" ++ show pid ++ codes ".sock"

-- A server that was made: it listens at the path, whose file is the only one that was made. Its
-- `Close` takes exactly that file away if it can be removed then, and can be repeated.
pub record Serves (path : Text) (files : List Text) (closes : Text → Bool) (s : IpcServer)
    (files' : List Text) : Type 0 where
  pub listens : s.listening ≡ true
  pub at_path : s.socket_path ≡ path
  pub empty : s.msg_chan ≡ new_channel
  pub made : files' ≡ path ∷ remove_file path files
  pub closed :
      (close_ipc_server closes s files').1
      ≡ (if closes path then remove_file path files else files')
  pub closed_again :
      let (s', files'') = close_ipc_server closes s files' in
      close_ipc_server closes s' files'' ≡ (s', files'')

-- What `NewIPCServer` does, by whether the path can be removed and bound, and what a later `Close`
-- does.
abbrev pub Outcome :
    Text → List Text → Bool → Bool → (Text → Bool) → Option IpcServer × List Text → Type 0
Outcome path files can_remove can_bind closes (some s, files') =
    (can_bind ≡ true)
    × ((can_remove ≡ true) ⊎ (has_file path files ≡ false))
    × Serves path files closes s files'
Outcome path files can_remove can_bind closes (none, files') =
    ((can_bind ≡ false) ⊎ ((can_remove ≡ false) × (has_file path files ≡ true)))
    × (files' ≡ (if can_remove then remove_file path files else files))

-- The server at a path.
abbrev server : Text → IpcServer
server path = record { listening = true; socket_path = path; msg_chan = new_channel }

path_of-not_nil : (temp_dir : Text) (pid : ℕ) → is_nil (path_of temp_dir pid) ≡ false
path_of-not_nil [] pid = refl
path_of-not_nil (c ∷ temp_dir) pid = refl

server-Serves :
    (path : Text) (files : List Text) (closes : Text → Bool)
    → is_nil path ≡ false
    → Serves path files closes (server path) (path ∷ remove_file path files)
unfolding close_ipc_server remove_at
server-Serves path files closes full =
    let gone : remove_file path (path ∷ remove_file path files) ≡ remove_file path files =
      remove_file_head path (remove_file path files) ∙ remove_file-remove_file path files in
    let stays = remove_file-remove_file path files in
    elim (Bool-cases (closes path)) [
      | inl e ↦ record {
        listens = refl;
        at_path = refl;
        empty = refl;
        made = refl;
        closed = rw (full, e, gone, stays) refl;
        closed_again = rw (full, e, gone, stays, stays) refl;
      }
      | inr e ↦ record {
        listens = refl;
        at_path = refl;
        empty = refl;
        made = refl;
        closed = rw (full, e) refl;
        closed_again = rw (full, e) refl;
      }
    ]

-- How a bind of a path ends where nothing is, and where a file is.
made_server :
    (removes may_bind : Text → Bool) (temp_dir : Text) (pid : ℕ) (files : List Text)
    (closes : Text → Bool)
    → let path = path_of temp_dir pid in
      (has_file path (remove_at removes path files) ≡ false)
      → ((removes path ≡ true) ⊎ (has_file path files ≡ false))
      → (remove_at removes path files ≡ remove_file path files)
      → Outcome path files
          (removes path)
          (may_bind path)
          closes
          (new_ipc_server removes may_bind temp_dir pid files)
unfolding new_ipc_server listen_unix remove_at
made_server removes may_bind temp_dir pid files closes free why cleared =
    let path = path_of temp_dir pid in
    elim (Bool-cases (may_bind path)) [
      | inl e ↦
          let same : new_ipc_server removes may_bind temp_dir pid files
              ≡ (some (server path), path ∷ remove_at removes path files) =
            rw (free, e, listen_unix, new_ipc_server) refl in
          let answer : List Text → Option IpcServer × List Text =
            λ fs. (some (server path), path ∷ fs) in
          let bound = ap answer cleared in
          subst (Outcome path files (removes path) (may_bind path) closes) (sym (same ∙ bound))
            (e, why, server-Serves path files closes (path_of-not_nil temp_dir pid))
      | inr e ↦
          let same : new_ipc_server removes may_bind temp_dir pid files
              ≡ (none, remove_at removes path files) =
            rw (free, e, listen_unix, new_ipc_server) refl in
          subst (Outcome path files (removes path) (may_bind path) closes) (sym same) (inl e, refl)
    ]

-- Whatever files exist, also one that an earlier process left at the path: `NewIPCServer` succeeds
-- exactly where the system lets the path be bound and a file that is there be removed, with a server
-- whose `Close` takes exactly its socket file away if that can be removed, and can be repeated;
-- otherwise it fails, and all that it may have done is to remove that file.
pub new_ipc_server-Outcome :
    (removes may_bind : Text → Bool) (temp_dir : Text) (pid : ℕ) (files : List Text)
    (closes : Text → Bool)
    → Outcome
        (socket_at temp_dir pid)
        files
        (removes (socket_at temp_dir pid))
        (may_bind (socket_at temp_dir pid))
        closes
        (new_ipc_server removes may_bind temp_dir pid files)
unfolding new_ipc_server listen_unix remove_at
new_ipc_server-Outcome removes may_bind temp_dir pid files closes =
    let path = path_of temp_dir pid in
    elim (Bool-cases (removes path)) [
      | inl r ↦
          let cleared : remove_at removes path files ≡ remove_file path files =
            rw (r, remove_at) refl in
          made_server removes may_bind temp_dir pid files closes
            (ap (has_file path) cleared ∙ remove_file-has_file path files) (inl r) cleared
      | inr r ↦
          let stays : remove_at removes path files ≡ files = rw (r, remove_at) refl in
          elim (Bool-cases (has_file path files)) [
            | inr absent ↦
                made_server removes may_bind temp_dir pid files closes
                  (ap (has_file path) stays ∙ absent) (inr absent)
                  (stays ∙ sym (remove_file-absent path files absent))
            | inl there ↦
                let taken : has_file path (remove_at removes path files) ≡ true =
                  ap (has_file path) stays ∙ there in
                let same : new_ipc_server removes may_bind temp_dir pid files
                    ≡ (none, remove_at removes path files) =
                  rw (taken, listen_unix, new_ipc_server) refl in
                subst (Outcome path files (removes path) (may_bind path) closes) (sym same)
                  (inr (r, there), refl)
          ]
    ]
