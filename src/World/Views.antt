-- ===== src/World/Views.antt =====
-- What a run leaves as it was: a view of the world that requests do not touch.
use s3ro.Base.{ℕ, Bytes, ◌∷◌, ◌≡◌, ◌∙◌}
use s3ro.World.{World, Errno, request, wrote, rewound, Reply, done, failed, crashed, M, after}

-- Nothing that a request does shows in the view.
pub record IsQuiet {X : Type 0} (view : World → X) : Type 0 where
  pub on_errno : (e : Errno) (w : World) → view (record w { errno = e }) ≡ view w
  pub on_request :
      (url : Bytes) (w : World) → view (record w { trace = request url ∷ w.trace }) ≡ view w
  pub on_wrote :
      (fd : ℕ) (s : Bytes) (w : World) → view (record w { trace = wrote fd s ∷ w.trace }) ≡ view w
  pub on_rewound : (fd : ℕ) (w : World) → view (record w { trace = rewound fd ∷ w.trace }) ≡ view w

abbrev pub Keeps : {X B : Type 0} → (World → X) → World → B × World → Type 0
Keeps view w r = view r.1 ≡ view w

pub after-Keeps :
    {X A B : Type 0} (view : World → X) (w : World) (r : Reply A × World) (f : A → M B)
    → Keeps view w r
    → ((a : A) (v : World) → Keeps view v (f a v))
    → Keeps view w (after r f)
after-Keeps view w (done a, v) f h k = k a v ∙ h
after-Keeps view w (failed, v) f h k = h
after-Keeps view w (crashed, v) f h k = h
