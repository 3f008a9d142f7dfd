-- ===== src/Stream/Spdy/Output/Trace.antt =====
-- crates/lightr-cri-stream/src/spdy/conn.rs: what the client of an exec session is sent on each of
-- its streams, whatever the order of the tasks.
use lightr_cri.Prelude.{
  ℕ, ◌≡◌, refl, sym, Bool, true, false, List, [], ◌∷◌, ◌++◌, Option, none, some, arith,
  if◌then◌else◌, ◌==◌, ◌∙◌, ap,
}
use lightr_cri.Prelude.Map.{nat_key}
use lightr_cri.Stream.Spdy.Frame.{
  Frame, syn_stream, syn_reply, rst_stream, settings, ping, goaway, headers, window_update,
  payload_data,
}
use lightr_cri.Stream.Spdy.Output.{
  spawn_output, Merge, ended, left, right, MergeAll, Pump, pump_frames,
}

-- The data frames of a stream, each by its flags and its payload.
unfoldable pub on_stream : ℕ → List Frame → List (ℕ × List ℕ)
on_stream id [] = []
on_stream id (payload_data i flags bytes ∷ fs) =
    let rest = on_stream id fs in if i == id then (flags, bytes) ∷ rest else rest
on_stream id (f ∷ fs) = on_stream id fs

-- The reads of a file up to its end.
abbrev pub chunks : List (Option (List ℕ)) → List (ℕ × List ℕ)
chunks [] = []
chunks (none ∷ reads) = []
chunks (some [] ∷ reads) = []
chunks (some (b ∷ bytes) ∷ reads) = (0, b ∷ bytes) ∷ chunks reads

pub on_stream-append :
    (id : ℕ) (xs ys : List Frame) → on_stream id (xs ++ ys) ≡ on_stream id xs ++ on_stream id ys
unfolding on_stream
on_stream-append id [] ys = refl
on_stream-append id (payload_data i fl b ∷ xs) ys = ground (arith, on_stream-append id xs ys)
on_stream-append id (syn_stream i a p f b ∷ xs) ys = on_stream-append id xs ys
on_stream-append id (syn_reply i f b ∷ xs) ys = on_stream-append id xs ys
on_stream-append id (rst_stream i st ∷ xs) ys = on_stream-append id xs ys
on_stream-append id (settings p ∷ xs) ys = on_stream-append id xs ys
on_stream-append id (ping i ∷ xs) ys = on_stream-append id xs ys
on_stream-append id (goaway i st ∷ xs) ys = on_stream-append id xs ys
on_stream-append id (headers i f b ∷ xs) ys = on_stream-append id xs ys
on_stream-append id (window_update i d ∷ xs) ys = on_stream-append id xs ys

on_stream-cons :
    (id : ℕ) (f : Frame) (fs : List Frame)
    → on_stream id (f ∷ fs) ≡ on_stream id (f ∷ []) ++ on_stream id fs
on_stream-cons id f fs = on_stream-append id (f ∷ []) fs

cons_left :
    (id : ℕ) (f : Frame) (xs zs : List Frame)
    → on_stream id zs ≡ on_stream id xs
    → on_stream id (f ∷ zs) ≡ on_stream id (f ∷ xs)
cons_left id f xs zs h =
    on_stream-cons id f zs ∙ ap (λ t. on_stream id (f ∷ []) ++ t) h ∙ sym (on_stream-cons id f xs)

append_empty : {A : Type 0} (xs ys : List A) → xs ++ ys ≡ [] → (xs ≡ []) × (ys ≡ [])
append_empty [] ys h = (refl, h)
append_empty (x ∷ xs) ys h = absurd (cc)

cons_none :
    (id : ℕ) (f : Frame) (ys : List Frame)
    → on_stream id (f ∷ ys) ≡ []
    → (on_stream id (f ∷ []) ≡ []) × (on_stream id ys ≡ [])
cons_none id f ys h =
    append_empty (on_stream id (f ∷ [])) (on_stream id ys) (sym (on_stream-cons id f ys) ∙ h)

cons_right :
    (id : ℕ) (f : Frame) (ys zs : List Frame)
    → on_stream id (f ∷ ys) ≡ []
    → on_stream id (f ∷ zs) ≡ on_stream id zs
cons_right id f ys zs h =
    on_stream-cons id f zs ∙ ap (λ t. t ++ on_stream id zs) (cons_none id f ys h).0

-- Of two tasks only one of which has frames on a stream.
pub on_stream-left :
    (id : ℕ) {xs ys zs : List Frame}
    → Merge xs ys zs
    → on_stream id ys ≡ []
    → on_stream id zs ≡ on_stream id xs
on_stream-left id ended h = refl
on_stream-left id (left {f} {xs} {ys} {zs} m) h = cons_left id f xs zs (on_stream-left id m h)
on_stream-left id (right {f} {xs} {ys} {zs} m) h =
    cons_right id f ys zs h ∙ on_stream-left id m (cons_none id f ys h).1

pub on_stream-right :
    (id : ℕ) {xs ys zs : List Frame}
    → Merge xs ys zs
    → on_stream id xs ≡ []
    → on_stream id zs ≡ on_stream id ys
on_stream-right id ended h = refl
on_stream-right id (right {f} {xs} {ys} {zs} m) h = cons_left id f ys zs (on_stream-right id m h)
on_stream-right id (left {f} {xs} {ys} {zs} m) h =
    cons_right id f xs zs h ∙ on_stream-right id m (cons_none id f xs h).1

on_stream-spawn_output :
    (id i : ℕ) (reads : List (Option (List ℕ)))
    → on_stream id (spawn_output i reads) ≡ (if i == id then chunks reads else [])
unfolding on_stream spawn_output
on_stream-spawn_output id i [] = ground arith
on_stream-spawn_output id i (none ∷ reads) = ground arith
on_stream-spawn_output id i (some [] ∷ reads) = ground arith
on_stream-spawn_output id i (some (b ∷ bytes) ∷ reads) =
    ground (arith, on_stream-spawn_output id i reads)

abbrev pub has_pump : ℕ → List Pump → Bool
has_pump id [] = false
has_pump id ((i, reads) ∷ pumps) = let rest = has_pump id pumps in if i == id then true else rest

-- At most one pump of the stream.
abbrev pub IsSingle : ℕ → List Pump → Type 0
IsSingle id [] = Unit
IsSingle id ((i, reads) ∷ pumps) =
    ((if i == id then has_pump id pumps else false) ≡ false) × IsSingle id pumps

abbrev pub pumped : ℕ → List Pump → List (ℕ × List ℕ)
pumped id [] = []
pumped id ((i, reads) ∷ pumps) =
    let rest = pumped id pumps in if i == id then chunks reads else rest

pub no_pump :
    (id : ℕ) (pumps : List Pump) (out : List Frame)
    → has_pump id pumps ≡ false
    → MergeAll (pump_frames pumps) out
    → on_stream id out ≡ []
unfolding on_stream
no_pump id [] out h m = ap (on_stream id) m
no_pump id ((i, reads) ∷ pumps) out h (ys, more, m) =
    let first = on_stream-spawn_output id i reads in
    on_stream-left id m (no_pump id pumps ys (ground arith) more) ∙ ground arith

pub one_pump :
    (id : ℕ) (pumps : List Pump) (out : List Frame)
    → IsSingle id pumps
    → MergeAll (pump_frames pumps) out
    → on_stream id out ≡ pumped id pumps
unfolding on_stream
one_pump id [] out h m = ap (on_stream id) m
one_pump id ((i, reads) ∷ pumps) out h (ys, more, m) =
    go (i == id) refl (one_pump id pumps ys h.1 more)
  where
    go :
        (b : Bool)
        → (i == id) ≡ b
        → on_stream id ys ≡ pumped id pumps
        → on_stream id out ≡ pumped id ((i, reads) ∷ pumps)
    go true e ih =
        let first = on_stream-spawn_output id i reads in
        on_stream-left id m (no_pump id pumps ys (ground arith) more) ∙ ground arith
    go false e ih =
        let first = on_stream-spawn_output id i reads in
        on_stream-right id m (ground arith) ∙ ground arith
