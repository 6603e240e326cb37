-- ===== src/Http/Progress.antt =====
-- About downloads that go on to their end.
use s3ro.Base.{
  ℕ, true, false, Option, none, some, List, [], ◌∷◌, Bytes, length, ◌≡◌, refl, ==_self, Bool,
}
use s3ro.Http.{file_write, deliver, conclude, send}
use s3ro.Http.Writing.{Progresses, file_write_total}
use s3ro.World.{World, System, request}

deliver_total :
    (sys : System) (fd : ℕ) (pieces : List Bytes) (w : World)
    → Progresses sys
    → (deliver (file_write sys) pieces fd w).0.0 ≡ true
unfolding deliver
deliver_total sys fd [] w p = refl
deliver_total sys fd (piece ∷ pieces) w p =
    let (r, w') = file_write sys piece fd w in
    let (taken, _) = file_write_total sys fd piece w p in
    rw (taken, ==_self (length piece)) (deliver_total sys r.1 pieces w' p)

conclude_total :
    {S : Type 0} (answer : Option ℕ) (r : (Bool × S) × World) {status : ℕ}
    → answer ≡ some status
    → r.0.0 ≡ true
    → (s : S) × (w : World) × (conclude answer r ≡ ((some status, s), w))
unfolding conclude
conclude_total (some status) ((true, s), w) e h = (s, w, cc)
conclude_total (some status) ((false, s), w) e h = cc
conclude_total none r e h = cc

-- Every piece is taken, so the request ends with the status of the answer.
pub send_total :
    (sys : System) (url : Bytes) (fd : ℕ) (w : World) {status : ℕ}
    → Progresses sys
    → (sys.transfer w.trace url).status ≡ some status
    → (s : ℕ) × (w' : World) × (send sys url (file_write sys) fd w ≡ ((some status, s), w'))
unfolding send
send_total sys url fd w p answers =
    let answer = sys.transfer w.trace url in
    let sent = record w { trace = request url ∷ w.trace } in
    conclude_total answer.status (deliver (file_write sys) answer.pieces fd sent) answers
      (deliver_total sys fd answer.pieces sent p)
