-- ===== src/Nfsd/Programs/Runs.antt =====
-- The theorems on the programs of tek/daemons/nfsd.c at small messages.
use tek.Base.{ℕ, ◌*◌, ◌%◌, ◌^◌, ◌<◌, ◌≡◌, refl, some, List, [], ◌∷◌, ◌++◌, length, inl, inr, arith}
use tek.Nfsd.Message.{Response, store, network}
use tek.Nfsd.Message.Bytes.{Holds, store-Holds, words}
use tek.Nfsd.Mounts.{Filehandle}
use tek.Nfsd.Pool.{Str, unset, tokens, decodepath}
use tek.Nfsd.Pool.Decode.{render}
use tek.Nfsd.Programs.{
  Info, Mountd, mount_service, answered, called, portmapperprog, callit, stored_over, handle_bytes,
  add_mount,
}
use tek.Nfsd.Programs.Getport.{reply_words, portmapperprog-getport}
use tek.Nfsd.Programs.Callit.{callit-moved}
use tek.Nfsd.Programs.Mount.{flavours, add_mount-mounted}

abbrev zeros : ℕ → ℕ
zeros j = 0

abbrev getport_call : List ℕ
getport_call =
    words (7 ∷ 0 ∷ 2 ∷ 100000 ∷ 2 ∷ 3 ∷ [])
    ++ (words (0 ∷ 0 ∷ []) ++ (words (0 ∷ 0 ∷ []) ++ (words (100005 ∷ 1 ∷ 17 ∷ 0 ∷ []) ++ [])))

portmapperprog-getport_example :
    (reply : Response) × (portmapperprog [] [] zeros 56
        (record { buffer = store zeros 0 getport_call; crp = 24 })
      ≡ some (answered reply))
    × Holds reply.buffer 0 (words (reply_words 7 (some 6135)))
    × (reply.cwp ≡ 4 * length (reply_words 7 (some 6135)))
portmapperprog-getport_example =
    portmapperprog-getport [] [] zeros (some 6135) 7 2 100005 1 17 0 56 []
      (store zeros 0 getport_call) (refl, inr (inl (refl, refl))) (omega arith) (omega arith)
      (omega arith, (omega arith, (omega arith, (omega arith, tt))))
      (store-Holds getport_call zeros 0)

abbrev mount_args : List ℕ
mount_args = words (8 ∷ 4 ∷ []) ++ (47 ∷ 97 ∷ 47 ∷ 98 ∷ [])

abbrev mount_callit : List ℕ
mount_callit = words (100005 ∷ 1 ∷ 1 ∷ []) ++ mount_args

callit-moved_example :
    (g : ℕ → ℕ) × (callit [] [] zeros 64 (record { buffer = store zeros 40 mount_callit; crp = 40 })
      ≡ some (called (some mount_service) (record { buffer = g; crp = 24 })))
    × Holds g 20 (network 1)
    × Holds g 40 mount_args
    × ((j : ℕ) → j < 20 → g j ≡ store zeros 40 mount_callit j)
callit-moved_example =
    callit-moved [] [] zeros (some mount_service) 100005 1 1 40 64 mount_args
      (store zeros 40 mount_callit) refl (omega arith, (omega arith, (omega arith, tt)))
      (store-Holds mount_callit zeros 40) (omega arith) refl (omega arith)

abbrev some_path : Str
some_path = 47 ∷ 97 ∷ 47 ∷ 98 ∷ []

abbrev a_directory : Info
a_directory = record { st_ino = 5; st_dev = 1; st_mode = 9 }

abbrev no_mounts : Mountd
no_mounts = record {
  mounts = record {
    mount_array = λ n. record { len = 0; inode = 0; dev = 0; fsid = 0; pathtokens = zeros };
    mount_count = 0;
  };
  cache = unset;
}

add_mount-mounted_example :
    (handle : Filehandle) × (encoded : List ℕ) × (fsid : ℕ) × (r : Response) × (s' : Mountd)
    × (add_mount [] zeros
          (λ p. some a_directory)
          1
          some_path
          (record { buffer = zeros; cwp = 24 })
          no_mounts
        ≡ some (r, s'))
    × Holds r.buffer 24 (
        words (0 ∷ [])
        ++ (handle_bytes (record handle { fsid = fsid % 2 ^ 16 }) ++ words (flavours 1)))
    × (fsid % 16 ≡ length (tokens [] some_path))
    × (s'.mounts.mount_count ≡ 1)
    × (s'.mounts.mount_array 0 ≡ handle)
    × (handle.inode ≡ 5)
    × (handle.dev ≡ 1)
    × (handle.pathtokens ≡ stored_over encoded (λ j. 0))
    × (decodepath (encoded ++ (0 ∷ [])) s'.cache ≡ some (render (tokens [] some_path)))
unfolding tokens
add_mount-mounted_example =
    add_mount-mounted (λ p. some a_directory) zeros 1 24 some_path a_directory zeros no_mounts refl
      (inl refl) tt (omega arith) (omega arith) (omega arith) (omega arith) (omega arith)
