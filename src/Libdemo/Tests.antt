-- ===== src/Libdemo/Tests.antt =====
-- Runs in which the library is found, and in which one handler is refused.
use myfreelib.Base.{pos, negsuc, true, false, [], ◌∷◌, ◌++◌, ◌≡◌, ◌⊎◌, refl, codes}
use myfreelib.Libdemo.{
  Handler, Call, Reply, History, returned, killed, undefined, BoundY, BoundXyz, atexit,
}
use myfreelib.Libdemo.Laws.{
  run, names, called, found, offered, registered, null_among, unknown_address, handler_names,
  xyz_name, run_ends,
}

-- Only atexit_a is registered.
abbrev fine_os : History → Call → Reply
fine_os t (atexit Handler.atexit_a) = record { ret = pos 0 }
fine_os t (atexit Handler.atexit_b) = record { ret = negsuc 0 }
fine_os t c = record { ret = pos 9 }

run_ends_example :
    let (r, u) = run (λ hs. hs) BoundY.in_libtmp BoundXyz.ver_1 (codes "/opt") fine_os [] in
    (offered u ≡ Handler.atexit_b ∷ Handler.atexit_a ∷ [])
    × (((r ≡ undefined) × (unknown_address u ≡ true) × (called u ≡ []))
        ⊎ ((r ≡ killed)
            × (unknown_address u ≡ false)
            × (null_among (found u) ≡ true)
            × (called u ≡ found u))
        ⊎ ((r ≡ returned (pos 0))
            × (unknown_address u ≡ false)
            × (null_among (found u) ≡ false)
            × (called u ≡ found u)
            × (names u
                ≡ "some_name_unload" ∷ handler_names (registered u)
                  ++ xyz_name BoundXyz.ver_1 ∷ "some_name_load" ∷ [])))
run_ends_example =
    run_ends (λ hs. hs) fine_os BoundY.in_libtmp BoundXyz.ver_1 (codes "/opt") (λ hs. refl)
