-- ===== src/Remote/Views.antt =====
-- About the requests of `fetch_remote_meta` and `download_into_temp`, and what they leave as it was.
use s3ro.Base.{ℕ, Option, none, some, List, Bytes, codes, arith, refl}
use s3ro.Http.{Buffer, perform_http_request, fetch_json, file_write}
use s3ro.Http.Views.{fetch_json-Keeps, perform_http_request-Keeps, file_write-IsKeeping}
use s3ro.Json.{Token}
use s3ro.Remote.{
  parse_buffer, parse_meta, check_status, fetch_remote_meta, remote_stat_path, rewind, status_of,
  download_into_temp,
}
use s3ro.World.{enoent, eio, World, System}
use s3ro.World.Views.{IsQuiet, Keeps, after-Keeps}

module _ {X : Type 0} (view : World → X) (quiet : IsQuiet view) where
  pub check_status-Keeps : (status : ℕ) (w : World) → Keeps view w (check_status status w)
  check_status-Keeps status w = ground (arith, quiet.on_errno enoent w, quiet.on_errno eio w)

  parse_buffer-Keeps :
      (sys : System) (buf : Buffer) (w : World) → Keeps view w (parse_buffer sys buf w)
  unfolding parse_buffer
  parse_buffer-Keeps sys buf w = ground (arith, quiet.on_errno eio w)

  parse_meta-Keeps :
      (sys : System) (buf : Buffer) (tokens : List Token) (w : World)
      → Keeps view w (parse_meta sys buf tokens w)
  unfolding parse_meta
  parse_meta-Keeps sys buf tokens w = ground (arith, quiet.on_errno eio w)

  pub fetch_remote_meta-Keeps :
      (sys : System) (abs_path : Bytes) (w : World)
      → Keeps view w (fetch_remote_meta sys abs_path w)
  unfolding fetch_remote_meta
  fetch_remote_meta-Keeps sys abs_path w =
      after-Keeps view w (fetch_json sys (codes "/stat") abs_path w) _
        (fetch_json-Keeps view quiet sys (codes "/stat") abs_path w)
        λ (status, buf) v.
          after-Keeps view v (check_status status v) _ (check_status-Keeps status v) λ _ v'.
            after-Keeps view v' (parse_buffer sys buf v') _ (parse_buffer-Keeps sys buf v')
              λ (_, tokens) v''. parse_meta-Keeps sys buf tokens v''

  pub remote_stat_path-Keeps :
      (sys : System) (abs_path : Bytes) (w : World) → Keeps view w (remote_stat_path sys abs_path w)
  unfolding remote_stat_path
  remote_stat_path-Keeps sys abs_path w =
      after-Keeps view w (fetch_remote_meta sys abs_path w) _
        (fetch_remote_meta-Keeps sys abs_path w) (λ _ _. refl)

  status_of-Keeps :
      (w : World) (r : (Option ℕ × ℕ) × World) → Keeps view w r → Keeps view w (status_of r)
  status_of-Keeps w ((none, fd), v) h = h
  status_of-Keeps w ((some status, fd), v) h = h

  rewind-Keeps : (sys : System) (fd : ℕ) (w : World) → Keeps view w (rewind sys fd w)
  unfolding rewind
  rewind-Keeps sys fd w = ground (arith, quiet.on_rewound fd w)

  pub download_into_temp-Keeps :
      (sys : System) (abs_path : Bytes) (fd : ℕ) (w : World)
      → Keeps view w (download_into_temp sys abs_path fd w)
  unfolding download_into_temp
  download_into_temp-Keeps sys abs_path fd w =
      after-Keeps view w
        (status_of (perform_http_request sys (codes "/cat") abs_path (file_write sys) fd w)) _
        (status_of-Keeps w (perform_http_request sys (codes "/cat") abs_path (file_write sys) fd w)
          (perform_http_request-Keeps view quiet sys (codes "/cat") abs_path (file_write sys) fd w
            (file_write-IsKeeping view quiet sys)))
        λ status v.
          after-Keeps view v (check_status status v) _ (check_status-Keeps status v)
            λ _ v'. rewind-Keeps sys fd v'
