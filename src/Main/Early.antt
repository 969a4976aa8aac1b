-- ===== src/Main/Early.antt =====
-- What `main` tests before it makes anything.
use wrapguard.Logger.{parse_log_level}
use wrapguard.Main.CommandLine.{
  Flags, default_flags, parsed, help_asked, bad_flags, parse_flags, Parsed-cases,
}
use wrapguard.Main.Stages.{Holds}
use wrapguard.Main.State.{World, new_world, Stage}
use wrapguard.Main.{read_flags, check_flags, check_args, check_log}
use wrapguard.Prelude.{
  ◌≡◌, refl, Bool, true, false, not, ◌&&◌, ◌||◌, List, ◌∷◌, Option, none, some, ◌⊎◌, inl, inr,
  is_nil, List-cases, if◌then◌else◌, Text, ℤ, pos,
}

-- The command line asks for the version or for help.
abbrev pub Asks : List Text → Type 0
Asks argv =
    (parse_flags argv default_flags ≡ help_asked)
    ⊎ ((f : Flags) × (parse_flags argv default_flags ≡ parsed f)
        × ((f.show_version || f.show_help) ≡ true))

abbrev pub IsBad : List Text → Type 0
IsBad argv = parse_flags argv default_flags ≡ bad_flags

-- An exit before anything was made.
pub record Early (argv files : List Text) (code : ℤ) (w : World) : Type 0 where
  pub nothing : w ≡ new_world files
  pub why : ((code ≡ pos 0) × Asks argv) ⊎ ((code ≡ pos 1) ⊎ ((code ≡ pos 2) × IsBad argv))

abbrev pub IsCommand : Flags → Text × List Text → Type 0
IsCommand f (name, args) = f.args ≡ name ∷ args

asked : (argv files : List Text) → Asks argv → Early argv files (pos 0) (new_world files)
asked argv files a = record { nothing = refl; why = inl (refl, a) }

refused : (argv files : List Text) → Early argv files (pos 1) (new_world files)
refused argv files = record { nothing = refl; why = inr (inl refl) }

unread : (argv files : List Text) → IsBad argv → Early argv files (pos 2) (new_world files)
unread argv files e = record { nothing = refl; why = inr (inr (refl, e)) }

pub read_flags-Holds :
    (argv files : List Text)
    → Holds
        (Early argv files)
        (λ f. parse_flags argv default_flags ≡ parsed f)
        (read_flags argv (new_world files))
unfolding read_flags
read_flags-Holds argv files = elim (Parsed-cases (parse_flags argv default_flags)) [
  | inl (f, e) ↦ rw (e, read_flags) refl
  | inr (inl e) ↦ rw (e, read_flags) (asked argv files (inl e))
  | inr (inr e) ↦ rw (e, read_flags) (unread argv files e)
]

check_args-Holds :
    (argv files : List Text) (f : Flags)
    → Holds (Early argv files) (IsCommand f) (check_args f (new_world files))
unfolding check_args
check_args-Holds argv files f = elim (List-cases f.args) [
  | inl e ↦ rw (e, check_args) (refused argv files)
  | inr (name, args, e) ↦ rw (e, check_args) refl
]

if-Holds {ℓ} :
    {A : Type ℓ} (Q : ℤ → World → Type 0) (P : A → Type 0) (b : Bool) (m n : Stage A)
    → (b ≡ true → Holds Q P m)
    → (b ≡ false → Holds Q P n)
    → Holds Q P (if b then m else n)
if-Holds Q P true m n h k = h refl
if-Holds Q P false m n h k = k refl

check_log-Holds :
    (opens_log : Text → Bool) (argv files : List Text) (f : Flags) (bad : Option Text)
    → Holds (Early argv files) (IsCommand f) (check_log opens_log f bad (new_world files))
check_log-Holds opens_log argv files f (some bad) = refused argv files
check_log-Holds opens_log argv files f none =
    if-Holds (Early argv files) (IsCommand f)
      (not (is_nil f.log_file) && not (opens_log f.log_file)) _ _ (λ _. refused argv files)
      (λ _. check_args-Holds argv files f)

pub check_flags-Holds :
    (opens_log : Text → Bool) (argv files : List Text) (f : Flags)
    → parse_flags argv default_flags ≡ parsed f
    → Holds (Early argv files) (IsCommand f) (check_flags opens_log f (new_world files))
unfolding check_flags
check_flags-Holds opens_log argv files f e =
    if-Holds (Early argv files) (IsCommand f) f.show_version _ _
      (λ v. asked argv files (inr (f, e, rw v refl)))
      λ v.
        if-Holds (Early argv files) (IsCommand f) f.show_help _ _
          (λ h. asked argv files (inr (f, e, rw (v, h) refl)))
          λ h.
            if-Holds (Early argv files) (IsCommand f) (is_nil f.config_path) _ _
              (λ _. refused argv files)
              λ _. check_log-Holds opens_log argv files f (parse_log_level f.log_level).1
