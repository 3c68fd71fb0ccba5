-- ===== src/Tests/OfDownloads.antt =====
-- The theorems on downloads, on a body with a hole in it.
use computer_host.Base.{◌≡◌, refl, none, List, [], ◌∷◌, length}
use computer_host.Daemon.Downloads.{
  Read, Copied, more, eof, Answers, Place, truncated, write_sparse_file, download_file,
  write_sparse_loop, put_read, put_chunk, is_zero_chunk,
}
use computer_host.Daemon.Downloads.Sparse.{delivered, failure, write_sparse_file-IsPlain}
use computer_host.Daemon.Downloads.Whole.{IsWhole, download_file-IsWhole}

abbrev image : List Read
image =
    record { chunk = 7 ∷ 0 ∷ []; ending = more; fault = none }
    ∷ record { chunk = 0 ∷ 0 ∷ 0 ∷ []; ending = more; fault = none }
    ∷ record { chunk = 9 ∷ []; ending = more; fault = none }
    ∷ record { chunk = 0 ∷ []; ending = eof; fault = none }
    ∷ []

abbrev sparse_copy : Copied
sparse_copy = write_sparse_file image (record { bytes = []; position = 0 })

-- The zeros at the end are no bytes of the file until it is truncated to the size.
copied_image : sparse_copy.file.bytes ≡ 7 ∷ 0 ∷ 0 ∷ 0 ∷ 0 ∷ 9 ∷ []
unfolding write_sparse_file write_sparse_loop put_read put_chunk is_zero_chunk
copied_image = refl

write_sparse_file-IsPlain_example :
    (sparse_copy.size ≡ length (delivered image))
    × (sparse_copy.error ≡ failure image)
    × ((truncated sparse_copy.size sparse_copy.file).bytes ≡ delivered image)
write_sparse_file-IsPlain_example =
    write_sparse_file-IsPlain image (refl, (refl, (refl, (refl, tt))))

abbrev answers : Answers
answers = record {
  stat = none;
  mkdir = none;
  request = none;
  response = none;
  status = 200;
  body = image;
  opening = none;
  truncate = none;
  sync = none;
  close = none;
  rename = none;
  sync_dir = none;
}

abbrev absent : Place
absent = record { target = none; temporary = none }

download_file-IsWhole_example :
    IsWhole answers none
      (download_file answers "https://host/rootfs" "/var/lib/artifacts/rootfs" absent)
download_file-IsWhole_example =
    download_file-IsWhole answers "https://host/rootfs" "/var/lib/artifacts/rootfs" absent
