-- ===== src/Logger/Output.antt =====
-- What a sequence of calls of `Errorf`, `Warnf`, `Infof` and `Debugf` writes.
use wrapguard.Logger.{LogEntry, Logger, level_string, log}
use wrapguard.Prelude.{
  ◌≡◌, refl, sym, ◌∙◌, ap, List, [], ◌∷◌, ◌++◌, append_assoc, append-nil, inl, inr, if◌then◌else◌,
  Bool-cases, Text, ℤ, ltb_ℤ, ◌≤ℤ◌, arith,
}

-- A call: the time, the level and the message.
pub record Call : Type 0 where
  pub now : Text
  pub level : ℤ
  pub message : Text

abbrev pub to_entry : Call → LogEntry
to_entry c = record { timestamp = c.now; level = level_string c.level; message = c.message }

abbrev pub log_calls : (LogEntry → Text) → List Call → Logger → Logger
log_calls marshal [] l = l
log_calls marshal (c ∷ cs) l = log_calls marshal cs (log marshal c.now c.level c.message l)

-- The calls of a level at most as high as the logger's.
abbrev pub shown : ℤ → List Call → List Call
shown limit [] = []
shown limit (c ∷ cs) = let rest = shown limit cs in if ltb_ℤ limit c.level then rest else c ∷ rest

-- A line for each entry.
abbrev pub to_lines : (LogEntry → Text) → List Call → Text
to_lines marshal [] = []
to_lines marshal (c ∷ cs) = marshal (to_entry c) ++ 10 ∷ to_lines marshal cs

-- The calls write one line for each call that the level lets through, in order, behind what was
-- written before, and leave the level alone.
pub log_calls-output :
    (marshal : LogEntry → Text) (cs : List Call) (l : Logger)
    → log_calls marshal cs l ≡ record l { output = l.output ++ to_lines marshal (shown l.level cs) }
unfolding log
log_calls-output marshal [] l = rw (append-nil l.output) refl
log_calls-output marshal (c ∷ cs) l = elim (Bool-cases (ltb_ℤ l.level c.level)) [
  | inl e ↦ rw (e, log) (log_calls-output marshal cs l)
  | inr e ↦
      rw (e, log)
        (log_calls-output marshal cs
            (record l { output = l.output ++ (marshal (to_entry c) ++ 10 ∷ []) })
          ∙ ap (λ (o : Text). record l { output = o })
              (append_assoc l.output (marshal (to_entry c) ++ 10 ∷ [])
                  (to_lines marshal (shown l.level cs))
                ∙ ap (λ (t : Text). l.output ++ t)
                    (append_assoc (marshal (to_entry c)) (10 ∷ [])
                      (to_lines marshal (shown l.level cs)))))
]

shown-shown :
    (low high : ℤ) (cs : List Call) → low ≤ℤ high → shown low (shown high cs) ≡ shown low cs
shown-shown low high [] h = refl
shown-shown low high (c ∷ cs) h = ground (arith, shown-shown low high cs h)

-- The calls that a higher level hides make no difference to a logger.
log_calls-shown :
    (marshal : LogEntry → Text) (high : ℤ) (cs : List Call) (l : Logger)
    → l.level ≤ℤ high
    → log_calls marshal (shown high cs) l ≡ log_calls marshal cs l
log_calls-shown marshal high cs l h =
    log_calls-output marshal (shown high cs) l
    ∙ ap (λ (k : List Call). record l { output = l.output ++ to_lines marshal k })
        (shown-shown l.level high cs h)
    ∙ sym (log_calls-output marshal cs l)
