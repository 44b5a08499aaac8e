-- ===== src/Nfsd/FileRuns.antt =====
-- The file server's theorems on concrete paths, credentials and attributes.
use tek.Base.{ℕ, ◌≡◌, refl, none, some, List, [], ◌∷◌, ◌++◌, arith}
use tek.Nfsd.Message.{store, word_at}
use tek.Nfsd.Message.Bytes.{Holds, words, store-Holds}
use tek.Nfsd.Message.RoundTrip.{ReadsBack, get_uints}
use tek.Nfsd.Pool.{Str, Pool, Cache, unset, tokens, encodepath, decodepath, used}
use tek.Nfsd.Pool.Paths.{Grown, IsSound}
use tek.Nfsd.Pool.Decode.{decodepath-encodepath}
use tek.Nfsd.Credentials.{get_credentials, get_credentials_unix}
use tek.Nfsd.Attributes.{Stat, add_fattr, blocks, get_majorminor}
use tek.Nfsd.Modes.{host2nfsmode, host2nfstype}
use tek.Nfsd.Sattr3.{get_sattr3}
use tek.Nfsd.Sattr3.Reads.{optional, size3, time3, unchanged, of_client, get_sattr3-Reads}
use tek.Nfsd.Attributes.Layout.{add_fattr_layout}

abbrev blank : ℕ → ℕ
blank j = 0

-- "//usr/x"
abbrev sample_path : Str
sample_path = 47 ∷ 47 ∷ 117 ∷ 115 ∷ 114 ∷ 47 ∷ 120 ∷ []

abbrev usr : Str
usr = 117 ∷ 115 ∷ 114 ∷ []

decodepath-encodepath_example :
    (encoded : List ℕ) × (after : Cache) × (encodepath [] sample_path 10 unset
      ≡ some (encoded, after))
    × Grown 2 unset after
    × (decodepath (encoded ++ (0 ∷ [])) after ≡ some (47 ∷ 117 ∷ 115 ∷ 114 ∷ 47 ∷ 120 ∷ []))
unfolding tokens
decodepath-encodepath_example =
    decodepath-encodepath sample_path 10 unset tt (omega arith) (omega arith) (omega arith)

abbrev one_string : Pool
one_string = record { strings = [] ∷ usr ∷ []; subpaths_len = 1024; stringcachelen = 2048 }

one_string-IsSound : IsSound one_string
unfolding used
one_string-IsSound = (refl, omega arith, omega arith, omega arith, omega arith)

-- Of the name "abcd" and the user 5, the word that is taken for the user is behind both.
abbrev credential : List ℕ
credential = words (1 ∷ 20 ∷ 9 ∷ 4 ∷ []) ++ (97 ∷ 98 ∷ 99 ∷ 100 ∷ words (5 ∷ 6 ∷ 0 ∷ 0 ∷ 0 ∷ []))

get_credentials_unix_example :
    get_credentials [] [] (record { buffer = store blank 24 credential; crp = 24 })
    ≡ some (
      word_at (store blank 24 credential) 56,
      record { buffer = store blank 24 credential; crp = 52 },
    )
get_credentials_unix_example =
    get_credentials_unix [] (97 ∷ 98 ∷ 99 ∷ 100 ∷ words (5 ∷ 6 ∷ 0 ∷ 0 ∷ 0 ∷ [])) 20 9 4 24
      (store blank 24 credential) (omega arith) (omega arith) (store-Holds credential blank 24)
      (omega arith)

abbrev sample_info : Stat
sample_info = record {
  st_mode = 1;
  st_perm = 11;
  st_nlink = 1;
  st_uid = 5;
  st_size = 700;
  st_ino = 42;
  st_mtime = 500000;
  st_spr = 0;
}

add_fattr_layout_example :
    ReadsBack
      (add_fattr sample_info 171)
      (get_uints 17)
      (1 ∷ 33156 ∷ 1 ∷ 5 ∷ 5 ∷ 700 ∷ 512 ∷ 0 ∷ 2 ∷ 171 ∷ 42 ∷ 500000 ∷ 0 ∷ 500000 ∷ 0 ∷ 500000 ∷ 0
        ∷ [])
      blank
      28
unfolding host2nfsmode host2nfstype blocks get_majorminor
add_fattr_layout_example =
    add_fattr_layout sample_info 171 blank 28
      (
        omega arith,
        (
          omega arith,
          (
            omega arith,
            (
              omega arith,
              (
                omega arith,
                (
                  omega arith,
                  (
                    omega arith,
                    (
                      omega arith,
                      (
                        omega arith,
                        (
                          omega arith,
                          (
                            omega arith,
                            (
                              omega arith,
                              (
                                omega arith,
                                (omega arith, (omega arith, (omega arith, (omega arith, tt)))),
                              ),
                            ),
                          ),
                        ),
                      ),
                    ),
                  ),
                ),
              ),
            ),
          ),
        ),
      )
      (omega arith)

abbrev some_stat : Stat
some_stat = record {
  st_mode = 1;
  st_perm = 7;
  st_nlink = 1;
  st_uid = 3;
  st_size = 10;
  st_ino = 4;
  st_mtime = 99;
  st_spr = 0;
}

-- A size and a time of the client.
abbrev size_and_time : List ℕ
size_and_time =
    words (optional none)
    ++ (words (optional none)
        ++ (words (optional none)
            ++ (words (size3 (some 20))
                ++ (words (time3 unchanged) ++ (words (time3 (of_client 5 6)) ++ [])))))

get_sattr3-Reads_example :
    (end : ℕ) × (get_sattr3 1000 some_stat
        (record { buffer = store blank 0 size_and_time; crp = 0 })
      ≡ some (
        record some_stat { st_mode = 255; st_uid = 65535; st_size = 20; st_mtime = 6 },
        record { buffer = store blank 0 size_and_time; crp = end },
      ))
    × Holds (store blank 0 size_and_time) end []
get_sattr3-Reads_example =
    get_sattr3-Reads 1000 some_stat none none none (some 20) unchanged (of_client 5 6)
      (store blank 0 size_and_time) 0 []
      (tt, (tt, (tt, (omega arith, (tt, (omega arith, omega arith))))))
      (store-Holds size_and_time blank 0) (omega arith)
