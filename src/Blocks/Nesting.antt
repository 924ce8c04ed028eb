-- ===== src/Blocks/Nesting.antt =====
-- Dynamic blocks of the promised output: brackets inside a block are skipped, and the block is one.
use cplus_plus_developer_pro.Prelude.{
  ℕ, suc, ◌≡◌, refl, ap, ◌∙◌, List, [], ◌∷◌, ◌++◌, append-nil, append_assoc, arith, ◌||◌,
  if◌then◌else◌, snoc,
}
use cplus_plus_developer_pro.Prelude.Text.{Text, bytes, text_eq}
use cplus_plus_developer_pro.Blocks.{
  Pending, nothing_pending, is_open, is_close, emit, collect, collect_all, leftover, blocks,
}
use cplus_plus_developer_pro.Blocks.Laws.{IsPlain}

abbrev pub open_line : Text
open_line = bytes "{"

abbrev pub close_line : Text
close_line = bytes "}"

-- Lines in which every bracket has its partner.
pub data Balanced : List Text → Type 0 where
  done : Balanced []
  command : {t : Text} {ts : List Text} → IsPlain t → Balanced ts → Balanced (t ∷ ts)
  nested :
      {ts us vs : List Text}
      → Balanced ts
      → Balanced us
      → vs ≡ open_line ∷ (ts ++ close_line ∷ us)
      → Balanced vs

-- The lines that are no brackets.
abbrev pub commands_of : List Text → List Text
commands_of [] = []
commands_of (t ∷ ts) = if is_open t || is_close t then commands_of ts else t ∷ commands_of ts

pub commands_of-append :
    (ts us : List Text) → commands_of (ts ++ us) ≡ commands_of ts ++ commands_of us
commands_of-append [] us = refl
commands_of-append (t ∷ ts) us = ground (arith, commands_of-append ts us)

abbrev inside : ℕ → List Text → Pending
inside d cmds = record { depth = suc d; commands = cmds }

module _ (size : ℕ) where
  inside-plain :
      (t : Text) (ts : List Text) (d : ℕ) (cmds : List Text)
      → IsPlain t
      → collect_all size (t ∷ ts) (inside d cmds) ≡ collect_all size ts (inside d (snoc cmds t))
  unfolding collect_all collect
  inside-plain t ts d cmds h = ground arith

  inside-open :
      (ts : List Text) (d : ℕ) (cmds : List Text)
      → collect_all size (open_line ∷ ts) (inside d cmds)
        ≡ collect_all size ts (inside (suc d) cmds)
  unfolding collect_all collect text_eq
  inside-open ts d cmds = ground arith

  inside-close :
      (ts : List Text) (d : ℕ) (cmds : List Text)
      → collect_all size (close_line ∷ ts) (inside (suc d) cmds)
        ≡ collect_all size ts (inside d cmds)
  unfolding collect_all collect text_eq
  inside-close ts d cmds = ground arith

  outside-open :
      (ts : List Text)
      → collect_all size (open_line ∷ ts) nothing_pending ≡ collect_all size ts (inside 0 [])
  unfolding collect_all collect text_eq
  outside-open ts = ground arith

  inside-last :
      (ts : List Text) (cmds : List Text)
      → collect_all size (close_line ∷ ts) (inside 0 cmds) ≡ (
        (collect_all size ts nothing_pending).0,
        emit cmds ++ (collect_all size ts nothing_pending).1,
      )
  unfolding collect_all collect text_eq
  inside-last ts cmds = ground arith

  -- Within a block, balanced lines add their commands and put nothing out.
  inside-Balanced :
      {body : List Text} (rest : List Text) (d : ℕ) (cmds : List Text)
      → Balanced body
      → collect_all size (body ++ rest) (inside d cmds)
        ≡ collect_all size rest (inside d (cmds ++ commands_of body))
  unfolding text_eq
  inside-Balanced rest d cmds done = rw append-nil
  inside-Balanced rest d cmds (command {t} {ts} h b) =
      inside-plain t (ts ++ rest) d cmds h
      ∙ inside-Balanced rest d (snoc cmds t) b
      ∙ rw (h.0, h.1, append_assoc)
  inside-Balanced rest d cmds (nested {ts} {us} b c e) =
      rw (e, append_assoc ts (close_line ∷ us) rest)
        (inside-open (ts ++ close_line ∷ (us ++ rest)) d cmds
          ∙ inside-Balanced (close_line ∷ (us ++ rest)) (suc d) cmds b
          ∙ inside-close (us ++ rest) d (cmds ++ commands_of ts)
          ∙ inside-Balanced rest d (cmds ++ commands_of ts) c
          ∙ rw (
            commands_of-append ts (close_line ∷ us),
            append_assoc cmds (commands_of ts) (commands_of us),
          ))

-- A block with balanced brackets inside is put out as one, without the brackets, unless it has no
-- command; what follows it is treated as if the block had not been there.
pub blocks-Balanced :
    (size : ℕ) {body : List Text} (rest : List Text)
    → Balanced body
    → blocks size (open_line ∷ (body ++ close_line ∷ rest))
      ≡ emit (commands_of body) ++ blocks size rest
unfolding blocks
blocks-Balanced size {body} rest b =
    ap (λ (r : Pending × List (List Text)). r.1 ++ leftover r.0) whole
    ∙ append_assoc (emit (commands_of body)) (collect_all size rest nothing_pending).1
        (leftover (collect_all size rest nothing_pending).0)
  where
    whole : collect_all size (open_line ∷ (body ++ close_line ∷ rest)) nothing_pending ≡ (
      (collect_all size rest nothing_pending).0,
      emit (commands_of body) ++ (collect_all size rest nothing_pending).1,
    )
    whole =
        outside-open size (body ++ close_line ∷ rest)
        ∙ inside-Balanced size (close_line ∷ rest) 0 [] b
        ∙ inside-last size rest (commands_of body)

-- A block that is still open at the end of the input is dropped whole.
pub blocks-unclosed :
    (size : ℕ) {body : List Text} → Balanced body → blocks size (open_line ∷ body) ≡ []
unfolding blocks collect_all collect text_eq
blocks-unclosed size {body} b =
    rw (← append-nil body, outside-open size (body ++ []), inside-Balanced size [] 0 [] b)
