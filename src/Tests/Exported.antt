-- ===== src/Tests/Exported.antt =====
-- The theorems about a user's calls at concrete inputs.
use charo_torrent.Prelude.{◌≡◌, refl, true, false}
use charo_torrent.Exported.{
  Shared, returned, blocked, done, start_data_transfer, set_data_download_enable, enter, leave,
}
use charo_torrent.Exported.Calls.{set_data_download_enable_blocks}

abbrev with_info : Shared
with_info = record {
  is_closed = false;
  held = false;
  info = true;
  info_was_downloaded = true;
  upload_enabled = false;
  download_enabled = false;
  all_pieces = false;
  pieces = true;
  pieces_locked = false;
  pieces_download = false;
  conns = 2;
}

abbrev transferring : Shared
transferring = record with_info {
  upload_enabled = true;
  download_enabled = true;
  pieces_download = true;
}

transfer_starts : start_data_transfer with_info ≡ returned done transferring
unfolding start_data_transfer enter leave
transfer_starts = refl

set_data_download_enable_blocks_example : set_data_download_enable false transferring ≡ blocked
set_data_download_enable_blocks_example =
    set_data_download_enable_blocks false transferring (refl, refl) refl refl
