-- ===== src/Transport/Script.antt =====
-- A lower stream that plays a list of chunks and logs what is written, for tests.
use mathlib.Core.List.{flatten}
use webtor_rs.Base.{
  ℕ, List, [], ◌∷◌, ◌++◌, refl, length, take, drop, ltb, false, ◌≡◌, ap, ◌∙◌, arith, le→ltb_false,
  length-append, take-length-append, drop-length-append, append-nil, if◌then◌else◌,
}
use webtor_rs.Error.{unexpected_eof}
use webtor_rs.Base.Outcome.{ok, err, pending, ready}
use webtor_rs.Transport.{Transport}
use webtor_rs.Transport.Recorder.{Recorder, Arrivals}

pub record Script : Type 0 where
  pub incoming : List (List ℕ)
  pub log : List ℕ

abbrev pub script : Transport Script
script = record {
  poll_read = λ n s. elim s.incoming [
    | [] ↦ (pending, s)
    | c ∷ cs ↦ (ready (ok c), record s { incoming = cs })
  ];
  poll_write = λ bytes s. (ready (ok (length bytes)), record s { log = s.log ++ bytes });
  poll_flush = λ s. (ready (ok tt), s);
  poll_close = λ s. (ready (ok tt), s);
  read = λ n s. elim s.incoming [ [] ↦ (ok [], s) | c ∷ cs ↦ (ok c, record s { incoming = cs }) ];
  read_exact = λ n s.
      if ltb (length (flatten s.incoming)) n
      then (err (record { kind = unexpected_eof; message = "unexpected end of file" }), s)
      else (
        ok (take n (flatten s.incoming)),
        record s { incoming = drop n (flatten s.incoming) ∷ [] },
      );
  write_all = λ bytes s. (ok tt, record s { log = s.log ++ bytes });
  flush = λ s. (ok tt, s);
}

abbrev pub recorder : Recorder script
recorder = record {
  sent = λ s. s.log;
  write_all-ok = λ bytes s. refl;
  sent-write_all = λ bytes s. refl;
  flush-ok = λ s. refl;
  sent-flush = λ s. refl;
}

pub script_read :
    (bytes rest : List ℕ) (s : Script)
    → flatten s.incoming ≡ bytes ++ rest
    → ((script.read_exact (length bytes) s).0 ≡ ok bytes)
      × (flatten (script.read_exact (length bytes) s).1.incoming ≡ rest)
unfolding flatten
script_read bytes rest s e =
    let enough : ltb (length (flatten s.incoming)) (length bytes) ≡ false = rw e (
      le→ltb_false (length (bytes ++ rest)) (length bytes)
        (omega (arith, length-append bytes rest))) in
    rw enough (
      ap ok (ap (take (length bytes)) e ∙ take-length-append bytes rest),
      append-nil (drop (length bytes) (flatten s.incoming))
          ∙ ap (drop (length bytes)) e
          ∙ drop-length-append bytes rest,
    )

abbrev pub arrivals : Arrivals script
arrivals = record { arriving = λ s. flatten s.incoming; read_exact-ok = script_read }
