-- ===== src/Prelude/Reply.antt =====
-- What becomes of a command to Redis: it is done and answered, it is not done and raises, or it is done and the
-- answer is lost, so that it raises as well.
pub data Reply : Type 0 where
  answered failed lost : Reply

-- The server's side of a command.
abbrev pub carried_out : {R : Type 0} → Reply → (R → R) → R → R
carried_out answered f r = f r
carried_out failed f r = r
carried_out lost f r = f r
