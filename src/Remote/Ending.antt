-- ===== src/Remote/Ending.antt =====
-- About `remote_stat_path`: each of its ends.
use s3ro.Base.{
  ℕ, some, List, [], ◌∷◌, Bytes, codes, ◌==◌, ==→eq, if◌then◌else◌, ◌≡◌, ◌≢◌, refl, ◌⊎◌, inl, inr,
  Bool-cases,
}
use s3ro.Http.{Buffer, fetch_json}
use s3ro.Http.Writing.{joined}
use s3ro.Json.{Token, parse_json_document, parse_object_at}
use s3ro.Meta.{RemoteMeta, Stat, hydrate_stat}
use s3ro.Remote.{check_status}
use s3ro.Remote.Outcomes.{IsFailure, Reported, url_of}
use s3ro.World.{World, System, Reply, request, done, failed, crashed, enoent, eio}
use s3ro.Run.{stray}

pub check_status-crashed :
    (status : ℕ) (w : World) {w' : World} → check_status status w ≡ (crashed, w') → ⊥
check_status-crashed status w h = elim (Bool-cases (status == 404)) [
  | inl lost ↦ absurd (cc (rw lost at h))
  | inr there ↦ elim (Bool-cases (status == 200)) [
    | inl fine ↦ absurd (cc (rw (there, fine) at h))
    | inr other ↦ absurd (cc (rw (there, other) at h))
  ]
]

-- The body of the answer, as it was handed over.
abbrev pub body_of : System → (abs_path : Bytes) → World → Bytes
body_of sys abs_path w = joined (sys.transfer w.trace (url_of (codes "/stat") abs_path)).pieces

-- A status 200 behind which there is not one byte, or an object that has fewer tokens than fields.
abbrev pub IsBadAnswer : System → (abs_path : Bytes) → World → Type 0
IsBadAnswer sys abs_path w =
    ((sys.transfer w.trace (url_of (codes "/stat") abs_path)).status ≡ some 200)
    × ((body_of sys abs_path w ≡ [])
        ⊎ ((count : ℕ) × (tokens : List Token) × (parse_json_document sys.allocates sys.jsmn
                (body_of sys abs_path w)
              ≡ some (count, tokens))
            × (parse_object_at sys.g_uid sys.g_gid (body_of sys abs_path w) tokens 0 ≡ stray)))

-- What stands behind each reply.
abbrev ReplyEnd : System → (abs_path : Bytes) → World → Reply Stat → World → Type 0
ReplyEnd sys abs_path w (done st) w' =
    (meta : RemoteMeta) × Reported sys abs_path w meta
    × (st ≡ hydrate_stat (sys.clock w'.trace 0) abs_path meta)
    × (w' ≡ record w { trace = request (url_of (codes "/stat") abs_path) ∷ w.trace })
ReplyEnd sys abs_path w failed w' = IsFailure sys (codes "/stat") abs_path w w'
ReplyEnd sys abs_path w crashed w' = IsBadAnswer sys abs_path w

-- And the errno that goes with a status, where the request came to its end.
pub record StatEnd (sys : System) (abs_path : Bytes) (w : World) (reply : Reply Stat) (w' : World)
    : Type 0 where
  pub ends : ReplyEnd sys abs_path w reply w'
  pub of_status :
      (status : ℕ) (buf : Buffer) (v : World)
      → fetch_json sys (codes "/stat") abs_path w ≡ (done (status, buf), v)
      → status ≢ 200
      → (reply ≡ failed) × (w' ≡ record v { errno = if status == 404 then enoent else eio })

pub check_status-refuses :
    (status : ℕ) (w : World)
    → status ≢ 200
    → check_status status w ≡ (failed, record w { errno = if status == 404 then enoent else eio })
check_status-refuses status w other = elim (Bool-cases (status == 404)) [
  | inl lost ↦ rw lost refl
  | inr there ↦ elim (Bool-cases (status == 200)) [
    | inl fine ↦ absurd (other (==→eq status 200 fine))
    | inr bad ↦ rw (there, bad) refl
  ]
]
