-- ===== src/Nfsd/Runs.antt =====
-- The file server's theorems on concrete messages, modes and tables.
use tek.Base.{ℕ, ◌+◌, ◌*◌, ◌%◌, ◌≡◌, refl, some, List, [], ◌∷◌, ◌++◌, length, arith}
use tek.Nfsd.Message.{Response, add_string, get_string, store}
use tek.Nfsd.Message.Bytes.{Holds, words, store-Holds}
use tek.Nfsd.Message.RoundTrip.{ReadsBack, get_string-add_string}
use tek.Nfsd.Attributes.{Stat}
use tek.Nfsd.Validate.{validate}
use tek.Nfsd.Validate.Reply.{program, read_reply, told, validate-read_reply}
use tek.Nfsd.Mounts.{Filehandle, Mounts, make_fsid, release_filehandle, put, same_tokens}
use tek.Nfsd.Mounts.Table.{make_fsid_entered, release_filehandle_other}

abbrev blank : ℕ → ℕ
blank j = 0

abbrev call_words : List ℕ
call_words = 7 ∷ 0 ∷ 2 ∷ 100003 ∷ 2 ∷ 4 ∷ []

get_string-add_string_example :
    ReadsBack (add_string (101 ∷ 116 ∷ 99 ∷ [])) get_string (101 ∷ 116 ∷ 99 ∷ []) blank 24
get_string-add_string_example =
    get_string-add_string (101 ∷ 116 ∷ 99 ∷ []) blank 24 (omega arith) (omega arith)

-- A call of another program than the one asked for.
validate-read_reply_example :
    (reply : Response) × (ws : List ℕ) × (validate blank 100005
        (record { buffer = store blank 0 (words call_words ++ []); crp = 0 })
      ≡ some (record {
        answer = 0;
        request = record { buffer = store blank 0 (words call_words ++ []); crp = 0 };
        sent = some reply;
      }))
    × Holds reply.buffer 0 (words ws)
    × (reply.cwp ≡ 4 * length ws)
    × (read_reply ws ≡ some (7, told program 100005))
validate-read_reply_example =
    validate-read_reply blank program 7 0 2 100003 2 4 100005 []
      (record { buffer = store blank 0 (words call_words ++ []); crp = 0 })
      (refl, refl, λ (e : 100003 ≡ 100005). omega (arith, e))
      (omega arith, (omega arith, (omega arith, (omega arith, (omega arith, (omega arith, tt))))))
      (store-Holds (words call_words ++ []) blank 0)

-- Handles whose path is one token.
abbrev handle_of : ℕ → Filehandle
handle_of t = record { len = 28; inode = 5; dev = 1; fsid = 0; pathtokens = put blank 0 t }

abbrev one_mount : Mounts
one_mount = record { mount_array = λ j. handle_of 3; mount_count = 1 }

make_fsid_entered_example :
    (result : ℕ) × (after : Mounts) × (make_fsid (handle_of 4) one_mount ≡ some (result, after))
    × (result % 16 ≡ 1)
    × (after.mount_count ≡ 2)
    × (after.mount_array 1 ≡ handle_of 4)
make_fsid_entered_example =
    make_fsid_entered (handle_of 4) one_mount 1 ((omega arith), refl) (omega arith) (omega arith)

-- Of the mounts with tokens 1 to 3, the release of the second takes out the first.
release_filehandle_other_example :
    release_filehandle
      (put blank 0 2)
      (record { mount_array = λ j. handle_of (j + 1); mount_count = 3 })
    ≡ record { mount_array = put (λ j. handle_of (j + 1)) 0 (handle_of 3); mount_count = 2 }
unfolding same_tokens
release_filehandle_other_example =
    release_filehandle_other 0 (put blank 0 2)
      (record { mount_array = λ j. handle_of (j + 1); mount_count = 3 }) refl (omega arith)

abbrev old_info : Stat
old_info = record {
  st_mode = 1;
  st_perm = 3;
  st_nlink = 1;
  st_uid = 5;
  st_size = 9;
  st_ino = 2;
  st_mtime = 0;
  st_spr = 0;
}
