-- ===== src/BulkServer/Network/Sessions.antt =====
-- The calls that a session of HW_10/include/server_p.hpp makes from its start to its end.
use cplus_plus_developer_pro.Prelude.{
  ℕ, zero, suc, ◌≡◌, refl, sym, ap, ◌∙◌, Bool, true, false, not, ◌&&◌, List, [], ◌∷◌, ◌++◌, ◌==◌,
  if◌then◌else◌, is_empty, snoc, take, drop, append-nil, append_assoc,
}
use cplus_plus_developer_pro.Prelude.Text.{Text}
use cplus_plus_developer_pro.BulkServer.Lifecycle.{Call, connects, receives, disconnects}
use cplus_plus_developer_pro.BulkServer.Network.{
  Session, eof, start, completed, ends_line, leave, read_rest, handle_read, Event, arrives, reads,
  event, events,
}

abbrev pub joined : List Text → Text
joined [] = []
joined (t ∷ ts) = t ++ joined ts

-- All bytes that arrive.
abbrev pub arrived : List Event → Text
arrived [] = []
arrived (arrives chunk ∷ es) = chunk ++ arrived es
arrived (reads n ∷ es) = arrived es

abbrev pub relayed : (ℕ → ℕ) → ℕ → List Text → List Call
relayed clock h [] = []
relayed clock h (t ∷ ts) = receives clock h t ∷ relayed clock h ts

take-drop : (n : ℕ) (s : Text) → take n s ++ drop n s ≡ s
take-drop zero s = refl
take-drop (suc n) [] = refl
take-drop (suc n) (c ∷ s) = ap (λ t. c ∷ t) (take-drop n s)

joined-snoc : (ts : List Text) (t : Text) → joined (snoc ts t) ≡ joined ts ++ t
joined-snoc [] t = append-nil t
joined-snoc (u ∷ ts) t = ap (λ x. u ++ x) (joined-snoc ts t) ∙ sym (append_assoc u (joined ts) t)

-- Whether a newline is put after what is left in the buffer.
abbrev pub unfinished : Text → Bool
unfinished rest = not (is_empty rest) && not (ends_line rest)

leave_lem :
    (clock : ℕ → ℕ) (a : ℕ) (x : Session)
    → (a == 0) ≡ false
    → x.handle ≡ a
    → leave clock x ≡ record x { handle = 0; calls = snoc x.calls (disconnects a) }
unfolding leave
leave_lem clock a x some_handle own =
    let given : (x.handle == 0) ≡ false = ap (λ h. h == 0) own ∙ some_handle in
    rw (leave, given) (ap (λ h. record x { handle = 0; calls = snoc x.calls (disconnects h) }) own)

module _ (clock : ℕ → ℕ) (bulk a : ℕ) where
  relayed-snoc :
      (ts : List Text) (t : Text)
      → relayed clock a (snoc ts t) ≡ snoc (relayed clock a ts) (receives clock a t)
  relayed-snoc [] t = refl
  relayed-snoc (u ∷ ts) t = ap (λ x. receives clock a u ∷ x) (relayed-snoc ts t)

  -- The bytes so far were passed on in order, but for those in the buffer.
  record IsRelaying (t : Text) (s : Session) : Type 0 where
    own : s.handle ≡ a
    parts : List Text
    made : s.calls ≡ connects bulk a ∷ relayed clock a parts
    whole : joined parts ++ s.buffer ≡ t

  relays :
      (t : Text) (s : Session) (part rest : Text)
      → IsRelaying t s
      → part ++ rest ≡ s.buffer
      → IsRelaying t
          (record s { buffer = rest; calls = snoc s.calls (receives clock s.handle part) })
  relays t s part rest r e = record {
    own = r.own;
    parts = snoc r.parts part;
    made =
        ap (λ x. snoc x (receives clock s.handle part)) r.made
        ∙ ap (λ h. connects bulk a ∷ snoc (relayed clock a r.parts) (receives clock h part)) r.own
        ∙ ap (λ x. connects bulk a ∷ x) (sym (relayed-snoc r.parts part));
    whole =
        ap (λ x. x ++ rest) (joined-snoc r.parts part)
        ∙ append_assoc (joined r.parts) part rest
        ∙ ap (λ x. joined r.parts ++ x) e
        ∙ r.whole;
  }

  events-IsRelaying :
      (es : List Event) (t : Text) (s : Session)
      → IsRelaying t s
      → IsRelaying (t ++ arrived es) (events clock es s)
  unfolding events event handle_read
  events-IsRelaying [] t s r = rw (append-nil t) r
  events-IsRelaying (arrives chunk ∷ es) t s r = rw (sym (append_assoc t chunk (arrived es))) (
      events-IsRelaying es (t ++ chunk) (record s { buffer = s.buffer ++ chunk })
        (record {
          own = r.own;
          parts = r.parts;
          made = r.made;
          whole = sym (append_assoc (joined r.parts) s.buffer chunk) ∙ ap (λ x. x ++ chunk) r.whole;
        }))
  events-IsRelaying (reads n ∷ es) t s r =
      events-IsRelaying es t
        (record s {
          buffer = drop n s.buffer;
          calls = snoc s.calls (receives clock s.handle (take n s.buffer));
        })
        (relays t s (take n s.buffer) (drop n s.buffer) r (take-drop n s.buffer))

  start-IsRelaying : IsRelaying [] (start bulk a)
  unfolding start
  start-IsRelaying = record { own = refl; parts = []; made = refl; whole = refl }

  append-completed :
      (front b t : Text)
      → front ++ b ≡ t
      → front ++ completed b ≡ (if unfinished b then snoc t 10 else t)
  append-completed front b t e = by_end (unfinished b)
    where
      by_end : (u : Bool) → front ++ (if u then snoc b 10 else b) ≡ (if u then snoc t 10 else t)
      by_end true = sym (append_assoc front b (10 ∷ [])) ∙ ap (λ x. snoc x 10) e
      by_end false = e

  read_rest-IsRelaying :
      (t b : Text) (h : ℕ) (listed : Bool) (cs : List Call)
      → let s : Session = record { handle = h; buffer = b; is_listed = listed; calls = cs } in
        IsRelaying t s
        → IsRelaying (if unfinished b then snoc t 10 else t) (read_rest clock s)
          × ((read_rest clock s).buffer ≡ [])
  unfolding read_rest
  read_rest-IsRelaying t [] h listed cs r = (r, refl)
  read_rest-IsRelaying t (c ∷ b) h listed cs r =
      let whole = if unfinished (c ∷ b) then snoc t 10 else t in
      let filled : Session = record {
        handle = h;
        buffer = completed (c ∷ b);
        is_listed = listed;
        calls = cs;
      } in
      let r' : IsRelaying whole filled = record {
        own = r.own;
        parts = r.parts;
        made = r.made;
        whole = append-completed (joined r.parts) (c ∷ b) t r.whole;
      } in
      (relays whole filled (completed (c ∷ b)) [] r' (append-nil (completed (c ∷ b))), refl)

-- From its start with a handle other than 0, through any reads, to the end of its input, a session
-- makes one `connect`, then calls of `receive` with its handle, and one `disconnect` at the end,
-- which its destructor does not repeat. The calls of `receive` get all the bytes that arrived,
-- in order; a newline is put after the last ones when they are in the buffer without one.
pub handle_read_lem :
    (clock : ℕ → ℕ) (bulk a : ℕ) (es : List Event)
    → (a == 0) ≡ false
    → let s = events clock es (start bulk a) in
      let last = handle_read clock eof 0 s in
      (parts : List Text) × (last.calls
        ≡ connects bulk a ∷ snoc (relayed clock a parts) (disconnects a))
      × (joined parts ≡ (if unfinished s.buffer then snoc (arrived es) 10 else arrived es))
      × (leave clock last ≡ last)
unfolding handle_read leave
handle_read_lem clock bulk a es some_handle =
    let s = events clock es (start bulk a) in
    let r = events-IsRelaying clock bulk a es [] (start bulk a) (start-IsRelaying clock bulk a) in
    let (r', emptied) =
      read_rest-IsRelaying clock bulk a (arrived es) s.buffer s.handle s.is_listed s.calls r in
    let left = leave_lem clock a (read_rest clock s) some_handle r'.own in
    (
      r'.parts,
      ap (λ x. x.calls) left ∙ ap (λ cs. snoc cs (disconnects a)) r'.made,
      sym (append-nil (joined r'.parts)) ∙ ap (λ x. joined r'.parts ++ x) (sym emptied) ∙ r'.whole,
      gone (leave clock (read_rest clock s)) (ap (λ x. x.handle) left),
    )
  where
    gone :
        (x : Session)
        → x.handle ≡ 0
        → leave clock (record x { is_listed = false }) ≡ record x { is_listed = false }
    gone x e = rw (leave, e) refl
