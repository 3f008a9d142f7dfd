-- ===== src/Fake/Log/Chunks.antt =====
-- lightr-cri-fake: the log that a tee thread writes, and what it sends to the attachers, by the bytes
-- that the container wrote.
use lightr_cri.Prelude.{
  ℕ, zero, suc, ◌+◌, ◌≤◌, ◌≡◌, refl, Bool, List, [], ◌∷◌, ◌++◌, Option, none, some, if◌then◌else◌,
  length, take, drop, arith, append_assoc, append-nil, ap, sym, ◌∙◌, length-drop,
}
use lightr_cri.Prelude.Text.{Text}
use lightr_cri.Fake.Log.Lines.{lines, lines-append, lines-position, lines_whole, lines_rest}
use lightr_cri.Fake.Log.{
  Tee, position, append_log, cri_log_line, write_record, drain_lines, tee_chunk, tee_loop,
  flush_pending,
}

module _ (clock : ℕ → ℕ × ℕ) (stream : Text) where
  -- The records of lines, the first of which is the n-th of the stream.
  abbrev pub records_log : ℕ → List (List ℕ) → List ℕ
  records_log n [] = []
  records_log n (l ∷ ls) = cri_log_line (clock n) stream l ++ records_log (suc n) ls

  records_log-append :
      (n : ℕ) (xs ys : List (List ℕ))
      → records_log n (xs ++ ys) ≡ records_log n xs ++ records_log (n + length xs) ys
  records_log-append n [] ys = ap (λ k. records_log k ys) (omega arith)
  records_log-append n (x ∷ xs) ys =
      ap (λ t. cri_log_line (clock n) stream x ++ t) (records_log-append (suc n) xs ys)
      ∙ sym (append_assoc (cri_log_line (clock n) stream x) (records_log (suc n) xs) _)
      ∙ ap (λ k. (cri_log_line (clock n) stream x ++ records_log (suc n) xs) ++ records_log k ys)
          (omega arith)

-- A stream's lines as the log has them: those that have ended, and the rest if there is one.
abbrev pub with_rest : List (List ℕ) × List ℕ → List (List ℕ)
with_rest (ls, []) = ls
with_rest (ls, b ∷ rest) = ls ++ ((b ∷ rest) ∷ [])

with_rest-append :
    (ls : List (List ℕ)) (p : List (List ℕ) × List ℕ)
    → with_rest (ls ++ p.0, p.1) ≡ ls ++ with_rest p
with_rest-append ls (ks, []) = refl
with_rest-append ls (ks, b ∷ rest) = append_assoc ls ks ((b ∷ rest) ∷ [])

-- The bytes that the reads give up to the end of the pipe or an error.
abbrev pub delivered : List (Option (List ℕ)) → List ℕ
delivered [] = []
delivered (none ∷ reads) = []
delivered (some [] ∷ reads) = []
delivered (some (b ∷ chunk) ∷ reads) = (b ∷ chunk) ++ delivered reads

abbrev pub joined : List (List ℕ) → List ℕ
joined [] = []
joined (c ∷ cs) = c ++ joined cs

append_log-append :
    (log : Option (List ℕ)) (xs ys : List ℕ)
    → append_log (append_log log xs) ys ≡ append_log log (xs ++ ys)
append_log-append none xs ys = refl
append_log-append (some log) xs ys = ap some (append_assoc log xs ys)

append_log-nil : (log : Option (List ℕ)) → append_log log [] ≡ log
append_log-nil none = refl
append_log-nil (some log) = ap some (append-nil log)

shorter :
    (bytes : List ℕ) (pos n : ℕ)
    → position bytes ≡ some pos
    → length bytes ≤ suc n
    → length (drop (suc pos) bytes) ≤ n
unfolding position
shorter [] pos n e h = absurd (ground arith)
shorter (b ∷ bytes) pos n e h = omega (arith, length-drop pos bytes)

module _ (clock : ℕ → ℕ × ℕ) (stream : Text) where
  -- The tee once the lines `p.0` are written and `p.1` is what waits.
  abbrev pub settle : List (List ℕ) × List ℕ → Tee → Tee
  settle p t = record t {
    log_pending = p.1;
    records = t.records + length p.0;
    log = append_log t.log (records_log clock stream t.records p.0);
  }

  settle_line :
      (line : List ℕ) (ls : List (List ℕ)) (rest behind : List ℕ) (t : Tee)
      → settle (ls, rest) (record (write_record clock stream line t) { log_pending = behind })
        ≡ settle (line ∷ ls, rest) t
  unfolding write_record
  settle_line line ls rest behind t = ground (
    arith,
    append_log-append t.log (cri_log_line (clock t.records) stream line)
        (records_log clock stream (suc t.records) ls),
  )

  settle_none : (t : Tee) → settle ([], t.log_pending) t ≡ t
  settle_none t = ground (arith, append_log-nil t.log)

  -- The fuel of the inner loop is enough: it ends with every line that has ended written and none
  -- left in what waits.
  pub drain_lines-settle :
      (fuel : ℕ) (t : Tee)
      → length t.log_pending ≤ fuel
      → drain_lines clock stream fuel t ≡ settle (lines t.log_pending) t
  unfolding drain_lines lines
  drain_lines-settle zero t h = go t.log_pending refl h
    where
      go :
          (bytes : List ℕ)
          → t.log_pending ≡ bytes
          → length bytes ≤ 0
          → drain_lines clock stream zero t ≡ settle (lines t.log_pending) t
      go [] e k =
          let whole : lines t.log_pending ≡ ([], t.log_pending) =
            ap lines e ∙ ap (λ rest. ([], rest)) (sym e) in
          sym (ap (λ p. settle p t) whole ∙ settle_none t)
      go (b ∷ bytes) e k = absurd (omega arith)
  drain_lines-settle (suc fuel) t h = go (position t.log_pending) refl (drain_lines-settle fuel)
    where
      go :
          (o : Option ℕ)
          → position t.log_pending ≡ o
          → ((u : Tee)
              → length u.log_pending ≤ fuel
              → drain_lines clock stream fuel u ≡ settle (lines u.log_pending) u)
          → drain_lines clock stream (suc fuel) t ≡ settle (lines t.log_pending) t
      go none e rest = rw (drain_lines, e) (sym (rw (lines_whole t.log_pending e) (settle_none t)))
      go (some pos) e rest =
          let behind = drop (suc pos) t.log_pending in
          let u : Tee = record (write_record clock stream (take (suc pos) t.log_pending) t) {
            log_pending = behind;
          } in
          rw (drain_lines, e)
            (rest u (shorter t.log_pending pos fuel e h)
              ∙ settle_line (take (suc pos) t.log_pending) (lines behind).0 (lines behind).1 behind
                  t
              ∙ ap (λ p. settle p t) (sym (lines-position t.log_pending pos e)))

  tee_chunk-settle :
      (fanout : Bool) (chunk : List ℕ) (t : Tee)
      → tee_chunk clock stream fanout chunk t
        ≡ settle
            (lines (t.log_pending ++ chunk))
            (record t { broadcast = if fanout then t.broadcast ++ (chunk ∷ []) else t.broadcast })
  unfolding tee_chunk
  tee_chunk-settle fanout chunk t =
      drain_lines-settle (length (t.log_pending ++ chunk)) _ (omega arith)

  flush_pending_log :
      (t : Tee)
      → (flush_pending clock stream t).log
        ≡ append_log t.log (records_log clock stream t.records (with_rest ([], t.log_pending)))
  unfolding write_record
  flush_pending_log t = go t.log_pending
    where
      go :
          (bytes : List ℕ)
          → (flush_pending clock stream (record t { log_pending = bytes })).log
            ≡ append_log t.log (records_log clock stream t.records (with_rest ([], bytes)))
      go [] = sym (append_log-nil t.log)
      go (b ∷ bytes) =
          ap (append_log t.log)
            (sym (append-nil (cri_log_line (clock t.records) stream (b ∷ bytes))))

  flushed :
      (t : Tee)
      → lines t.log_pending ≡ ([], t.log_pending)
      → (flush_pending clock stream t).log
        ≡ append_log t.log
            (records_log clock stream t.records (with_rest (lines (t.log_pending ++ []))))
  flushed t h =
      flush_pending_log t
      ∙ ap (λ p. append_log t.log (records_log clock stream t.records (with_rest p)))
          (sym (ap lines (append-nil t.log_pending) ∙ h))

  -- What is written for a first part of the bytes, and then for the rest with what waited.
  logged_twice :
      (n : ℕ) (log : Option (List ℕ)) (xs ys : List ℕ)
      → let p = lines xs in
        append_log
          (append_log log (records_log clock stream n p.0))
          (records_log clock stream (n + length p.0) (with_rest (lines (p.1 ++ ys))))
        ≡ append_log log (records_log clock stream n (with_rest (lines (xs ++ ys))))
  logged_twice n log xs ys =
      let p = lines xs in
      append_log-append log (records_log clock stream n p.0) _
      ∙ ap (append_log log) (
          sym (records_log-append clock stream n p.0 (with_rest (lines (p.1 ++ ys))))
          ∙ ap (records_log clock stream n) (
              sym (with_rest-append p.0 (lines (p.1 ++ ys)))
              ∙ ap with_rest (sym (lines-append xs ys))))

  -- The log of a stream depends on the bytes alone that the container wrote, not on how the reads cut
  -- them up: it is extended by one record for each line, in order, and one for the rest behind the
  -- last newline if there is one.
  pub tee_loop-delivered :
      (fanout : Bool) (reads : List (Option (List ℕ))) (t : Tee)
      → lines t.log_pending ≡ ([], t.log_pending)
      → (tee_loop clock stream fanout reads t).log
        ≡ append_log t.log (
            records_log clock stream t.records
              (with_rest (lines (t.log_pending ++ delivered reads))))
  unfolding tee_loop
  tee_loop-delivered fanout [] t h = flushed t h
  tee_loop-delivered fanout (none ∷ reads) t h = flushed t h
  tee_loop-delivered fanout (some [] ∷ reads) t h = flushed t h
  tee_loop-delivered fanout (some (b ∷ chunk) ∷ reads) t h =
      let bytes = t.log_pending ++ (b ∷ chunk) in
      let u = settle (lines bytes) (record t {
        broadcast = if fanout then t.broadcast ++ ((b ∷ chunk) ∷ []) else t.broadcast;
      }) in
      ap (λ v. (tee_loop clock stream fanout reads v).log) (tee_chunk-settle fanout (b ∷ chunk) t)
      ∙ tee_loop-delivered fanout reads u (lines_rest bytes)
      ∙ logged_twice t.records t.log bytes (delivered reads)
      ∙ ap (λ bs. append_log t.log (records_log clock stream t.records (with_rest (lines bs))))
          (append_assoc t.log_pending (b ∷ chunk) (delivered reads))
