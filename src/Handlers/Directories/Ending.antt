-- ===== src/Handlers/Directories/Ending.antt =====
-- About opendir: each of its ends.
use s3ro.Base.{ℕ, ◌≢◌, ◌⊎◌, ◌==◌, if◌then◌else◌, some, List, [], Bytes, codes, ◌≡◌}
use s3ro.Json.{Token, parse_json_document, parse_object_at}
use s3ro.Handlers.Directories.Failing.{OpendirFailure}
use s3ro.Handlers.Directories.Opening.{listing_of}
use s3ro.Handlers.Directories.Outcomes.{OpenOutcome}
use s3ro.Http.{Buffer, fetch_json}
use s3ro.Http.Writing.{joined}
use s3ro.Path.{Located}
use s3ro.Registry.{Ptr}
use s3ro.Run.{Run, ok, stray}
use s3ro.World.{World, System, Reply, done, failed, crashed, enoent, eio}

-- Not one byte, or an object that has fewer tokens than fields.
abbrev pub BadBody : System → Bytes → Type 0
BadBody sys body =
    (body ≡ [])
    ⊎ ((count : ℕ) × (tokens : List Token) × (parse_json_document sys.allocates sys.jsmn body
          ≡ some (count, tokens))
        × ((idx : ℕ) × (parse_object_at sys.g_uid sys.g_gid body tokens idx ≡ stray)))

-- A body that is not read without a crash.
abbrev pub OpendirCrash : System → Run Located → World → Type 0
OpendirCrash sys r w =
    (l : Located) × (r ≡ ok l)
    × ((listing_of sys l w).status ≡ some 200)
    × BadBody sys (joined (listing_of sys l w).pieces)

-- What stands behind each answer of the shim's.
abbrev AnswerEnd : System → Run Located → World → Reply Ptr → World → Type 0
AnswerEnd sys r w (done p) w' =
    (l : Located) × (r ≡ ok l)
    × ((listing_of sys l w).status ≡ some 200)
    × OpenOutcome sys w (done p, w')
AnswerEnd sys r w failed w' = OpendirFailure sys r w w'
AnswerEnd sys r w crashed w' = OpendirCrash sys r w

-- And the errno that goes with a status, where the request came to its end.
pub record OpendirEnd (sys : System) (r : Run Located) (w : World) (a : Reply Ptr) (w' : World)
    : Type 0 where
  pub ends : AnswerEnd sys r w a w'
  pub of_status :
      (l : Located) (status : ℕ) (buf : Buffer) (v : World)
      → r ≡ ok l
      → fetch_json sys (codes "/ls") l.abs w ≡ (done (status, buf), v)
      → status ≢ 200
      → (a ≡ failed) × (w' ≡ record v { errno = if status == 404 then enoent else eio })
