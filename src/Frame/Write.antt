-- ===== src/Frame/Write.antt =====
-- `writeAll` and `WriteFrame`: what reaches the writer.
use deep_protocol.Base.{
  ℕ, ◌≡◌, refl, sym, ap, ◌∙◌, inl, inr, List, [], ◌∷◌, ◌++◌, append-nil, append_assoc, Bytes,
  length, take, drop, take-append-drop, ltb, ◌==◌, Error, subst, none, some, Result, ok, err,
  short_write, Bool-cases,
}
use deep_protocol.Base.Int.{pos, negsuc}
use deep_protocol.Io.{Answer, Writer}
use deep_protocol.Frame.{write_all_to}

-- Of `bytes` the writer took all, or on an error a part at the front.
pub record Delivers (before bytes : Bytes) (r : Result (Unit {0}) × Writer) : Type 0 where
  pub taken : Bytes
  pub left_out : Bytes
  pub splits : bytes ≡ taken ++ left_out
  pub sent_is : r.1.sent ≡ before ++ taken
  pub whole : r.0 ≡ ok tt → left_out ≡ []

Delivers-whole :
    (before bytes : Bytes) (answers : List Answer)
    → Delivers before bytes (ok tt, record { sent = before ++ bytes; answers = answers })
Delivers-whole before bytes answers = record {
  taken = bytes;
  left_out = [];
  splits = sym (append-nil bytes);
  sent_is = refl;
  whole = λ _. refl;
}

Delivers-part :
    (before bytes : Bytes) (n : ℕ) (e : Error) (answers : List Answer)
    → Delivers before bytes (err e, record { sent = before ++ take n bytes; answers = answers })
Delivers-part before bytes n e answers = record {
  taken = take n bytes;
  left_out = drop n bytes;
  splits = sym (take-append-drop n bytes);
  sent_is = refl;
  whole = λ h. cc;
}

Delivers-nothing :
    (before bytes : Bytes) (e : Error) (answers : List Answer)
    → Delivers before bytes (err e, record { sent = before; answers = answers })
Delivers-nothing before bytes e answers = record {
  taken = [];
  left_out = bytes;
  splits = refl;
  sent_is = sym (append-nil before);
  whole = λ h. cc;
}

-- A part that was taken whole, and what follows it.
Delivers-then :
    (before part rest : Bytes) {r : Result (Unit {0}) × Writer}
    → Delivers (before ++ part) rest r
    → Delivers before (part ++ rest) r
Delivers-then before part rest d = record {
  taken = part ++ d.taken;
  left_out = d.left_out;
  splits = ap (◌++◌ part) d.splits ∙ sym (append_assoc part d.taken d.left_out);
  sent_is = d.sent_is ∙ append_assoc before part d.taken;
  whole = d.whole;
}

pub write_all_to-Delivers :
    (answers : List Answer) (before bytes : Bytes)
    → Delivers before bytes (write_all_to answers before bytes)
unfolding write_all_to
write_all_to-Delivers answers before [] = record {
  taken = [];
  left_out = [];
  splits = refl;
  sent_is = sym (append-nil before);
  whole = λ _. refl;
}
write_all_to-Delivers [] before (c ∷ cs) = Delivers-whole before (c ∷ cs) []
write_all_to-Delivers ((negsuc n, e) ∷ answers) before (c ∷ cs) =
    Delivers-nothing before (c ∷ cs) short_write answers
write_all_to-Delivers ((pos n, some cause) ∷ answers) before (c ∷ cs) =
    elim (Bool-cases (ltb (length (c ∷ cs)) n)) [
      | inl over ↦ rw over (Delivers-nothing before (c ∷ cs) short_write answers)
      | inr fits ↦ rw fits (Delivers-part before (c ∷ cs) n cause answers)
    ]
write_all_to-Delivers ((pos n, none) ∷ answers) before (c ∷ cs) =
    elim (Bool-cases (ltb (length (c ∷ cs)) n)) [
      | inl over ↦ rw over (Delivers-nothing before (c ∷ cs) short_write answers)
      | inr fits ↦ rw fits (elim (Bool-cases (n == 0)) [
        | inl none_taken ↦ rw none_taken (Delivers-part before (c ∷ cs) n short_write answers)
        | inr some_taken ↦
            let r = write_all_to (answers) (before ++ take n (c ∷ cs)) (drop n (c ∷ cs)) in
            rw some_taken (
              subst (λ b. Delivers before b r) (take-append-drop n (c ∷ cs))
                (Delivers-then before (take n (c ∷ cs)) (drop n (c ∷ cs))
                  (write_all_to-Delivers answers (before ++ take n (c ∷ cs)) (drop n (c ∷ cs)))))
      ])
    ]
