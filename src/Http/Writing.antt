-- ===== src/Http/Writing.antt =====
-- About `file_write` and `send`: the bytes of a body that reach the descriptor.
use s3ro.Base.{
  ℕ, zero, suc, ◌≤◌, ◌<◌, Bool, true, false, Option, none, some, List, [], ◌∷◌, ◌++◌, Bytes, ◌==◌,
  if◌then◌else◌, length, take, drop, ◌≡◌, ◌≢◌, refl, ap, ◌∙◌, arith, inl, inr, Bool-cases,
  append-nil, append_assoc, take-append-drop, length-drop, ==_self,
}
use s3ro.Http.{Callback, write_loop, file_write, deliver, conclude, send}
use s3ro.World.{eio, World, System, Event, request, wrote}

-- The bytes written to a descriptor, from the record of events.
abbrev pub written : ℕ → List Event → Bytes
written fd [] = []
written fd (wrote fd' s ∷ trace) = if fd' == fd then written fd trace ++ s else written fd trace
written fd (_ ∷ trace) = written fd trace

abbrev pub joined : List Bytes → Bytes
joined [] = []
joined (piece ∷ pieces) = piece ++ joined pieces

-- write(2) writes a byte at least.
abbrev pub Progresses : System → Type 0
Progresses sys = (trace : List Event) (fd c : ℕ) (s : Bytes) → 0 < sys.write trace fd (c ∷ s)

write_loop-written :
    (sys : System) (fd fuel : ℕ) (s : Bytes) (w : World)
    → (write_loop sys fd fuel s w).0 ≡ true
    → written fd (write_loop sys fd fuel s w).1.trace ≡ written fd w.trace ++ s
unfolding write_loop
write_loop-written sys fd fuel [] w h = rw append-nil refl
write_loop-written sys fd zero (c ∷ s) w h = cc
write_loop-written sys fd (suc fuel) (c ∷ s) w h =
    let n = sys.write w.trace fd (c ∷ s) in
    elim (Bool-cases (n == 0)) [
      | inl failure ↦ absurd (cc (rw failure at h))
      | inr some_bytes ↦ rw some_bytes (
          write_loop-written sys fd fuel (drop n (c ∷ s))
            (record w { trace = wrote fd (take n (c ∷ s)) ∷ w.trace }) (rw some_bytes at h)
          ∙ rw (==_self fd) (
              append_assoc (written fd w.trace) _ _
              ∙ ap (◌++◌ (written fd w.trace)) (take-append-drop n (c ∷ s))))
    ]

-- A round for each byte is enough, if each call writes a byte at least.
write_loop_total :
    (sys : System) (fd fuel : ℕ) (s : Bytes) (w : World)
    → Progresses sys
    → length s ≤ fuel
    → (write_loop sys fd fuel s w).0 ≡ true
unfolding write_loop
write_loop_total sys fd fuel [] w p enough = refl
write_loop_total sys fd zero (c ∷ s) w p enough = absurd (omega arith)
write_loop_total sys fd (suc fuel) (c ∷ s) w p enough =
    let n = sys.write w.trace fd (c ∷ s) in
    let some_bytes : (n == 0) ≡ false = ground (arith, p w.trace fd c s) in
    rw some_bytes (
      write_loop_total sys fd fuel (drop n (c ∷ s))
        (record w { trace = wrote fd (take n (c ∷ s)) ∷ w.trace }) p
        (omega (arith, length-drop n (c ∷ s), p w.trace fd c s)))

-- If write(2) always takes a byte at least, file_write takes its whole piece: it returns the
-- number of its bytes, and they are appended to what was written to the descriptor.
pub file_write_total :
    (sys : System) (fd : ℕ) (ptr : Bytes) (w : World)
    → Progresses sys
    → ((file_write sys ptr fd w).0.0 ≡ length ptr)
      × (written fd (file_write sys ptr fd w).1.trace ≡ written fd w.trace ++ ptr)
unfolding file_write
file_write_total sys fd ptr w p =
    let whole = write_loop_total sys fd (length ptr) ptr w p (omega arith) in
    (rw whole refl, write_loop-written sys fd (length ptr) ptr w whole)

zero-ne-length : (c : ℕ) (s : Bytes) → (0 == length (c ∷ s)) ≢ true
zero-ne-length c s h = ground arith

-- A piece that was taken is in the file.
file_write-taken :
    (sys : System) (fd : ℕ) (ptr : Bytes) (w : World)
    → ((file_write sys ptr fd w).0.0 == length ptr) ≡ true
    → written fd (file_write sys ptr fd w).1.trace ≡ written fd w.trace ++ ptr
unfolding file_write
file_write-taken sys fd [] w h = write_loop-written sys fd 0 [] w (unfold write_loop in refl)
file_write-taken sys fd (c ∷ s) w h =
    let loop = write_loop sys fd (length (c ∷ s)) (c ∷ s) w in
    elim (Bool-cases loop.0) [
      | inl whole ↦ write_loop-written sys fd (length (c ∷ s)) (c ∷ s) w whole
      | inr cut ↦ absurd (zero-ne-length c s (rw cut at h))
    ]

file_write-fd :
    (sys : System) (ptr : Bytes) (fd : ℕ) (w : World) → (file_write sys ptr fd w).0.1 ≡ fd
unfolding file_write
file_write-fd sys ptr fd w = refl

deliver-written :
    (sys : System) (fd : ℕ) (pieces : List Bytes) (w : World)
    → (deliver (file_write sys) pieces fd w).0.0 ≡ true
    → written fd (deliver (file_write sys) pieces fd w).1.trace
      ≡ written fd w.trace ++ joined pieces
unfolding deliver
deliver-written sys fd [] w h = rw append-nil refl
deliver-written sys fd (piece ∷ pieces) w h =
    let (r, w') = file_write sys piece fd w in
    elim (Bool-cases (r.0 == length piece)) [
      | inr cut ↦ absurd (cc (rw cut at h))
      | inl taken ↦
          let same = file_write-fd sys piece fd w in
          rw (taken, same)
            (deliver-written sys fd pieces w' (rw (taken, same) at h)
              ∙ rw (file_write-taken sys fd piece w taken)
                  (append_assoc (written fd w.trace) piece (joined pieces)))
    ]

-- The result of `send` when curl reports a status.
conclude-some :
    {S : Type 0} (answer : Option ℕ) (r : (Bool × S) × World) {status : ℕ}
    → (conclude answer r).0.0 ≡ some status
    → (r.0.0 ≡ true) × ((conclude answer r).1 ≡ r.1) × ((conclude answer r).0.1 ≡ r.0.1)
unfolding conclude
conclude-some none ((true, s), w) h = cc
conclude-some none ((false, s), w) h = cc
conclude-some (some _) ((true, s), w) h = (refl, refl, refl)
conclude-some (some _) ((false, s), w) h = cc

conclude-status :
    {S : Type 0} (answer : Option ℕ) (r : (Bool × S) × World) {status : ℕ}
    → (conclude answer r).0.0 ≡ some status
    → answer ≡ some status
unfolding conclude
conclude-status none ((true, s), w) h = cc
conclude-status none ((false, s), w) h = cc
conclude-status (some _) ((true, s), w) h = h
conclude-status (some _) ((false, s), w) h = cc

-- If the request of a download ends with an HTTP status, the bytes written to the descriptor are
-- those written before and then the whole body that curl handed over, piece after piece, whatever
-- number of bytes each write(2) takes.
pub send-written :
    (sys : System) (url : Bytes) (fd : ℕ) (w : World) {status : ℕ}
    → (send sys url (file_write sys) fd w).0.0 ≡ some status
    → written fd (send sys url (file_write sys) fd w).1.trace
      ≡ written fd w.trace ++ joined (sys.transfer w.trace url).pieces
unfolding send
send-written sys url fd w h =
    let answer = sys.transfer w.trace url in
    let sent = record w { trace = request url ∷ w.trace } in
    let (whole, same, _) =
      conclude-some answer.status (deliver (file_write sys) answer.pieces fd sent) h in
    rw same (deliver-written sys fd answer.pieces sent whole)

-- The status is that of the answer.
pub send-status :
    {S : Type 0} (sys : System) (url : Bytes) (cb : Callback S) (s : S) (w : World) {status : ℕ}
    → (send sys url cb s w).0.0 ≡ some status
    → (sys.transfer w.trace url).status ≡ some status
unfolding send
send-status sys url cb s w h =
    let answer = sys.transfer w.trace url in
    conclude-status answer.status
      (deliver cb answer.pieces s (record w { trace = request url ∷ w.trace })) h

conclude-failed :
    {S : Type 0} (answer : Option ℕ) (r : (Bool × S) × World)
    → (conclude answer r).0.0 ≡ none
    → (conclude answer r).1.errno ≡ eio
unfolding conclude
conclude-failed none ((true, s), w) h = refl
conclude-failed none ((false, s), w) h = refl
conclude-failed (some _) ((false, s), w) h = refl
conclude-failed (some _) ((true, s), w) h = cc

-- A request that ends with no status is EIO.
pub send-failed :
    {S : Type 0} (sys : System) (url : Bytes) (cb : Callback S) (s : S) (w : World)
    → (send sys url cb s w).0.0 ≡ none
    → (send sys url cb s w).1.errno ≡ eio
unfolding send
send-failed sys url cb s w h =
    let answer = sys.transfer w.trace url in
    conclude-failed answer.status
      (deliver cb answer.pieces s (record w { trace = request url ∷ w.trace })) h
