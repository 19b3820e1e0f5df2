-- ===== src/Tests/ConfigRuns.antt =====
-- Settings with one retired key.
use secure_file_system.Base.Dict
use secure_file_system.Base.{◌≡◌, refl, list_eq, nat_eq, ok}
use secure_file_system.Base.Dict.{Dict}
use secure_file_system.Base.Text.{codes}
use secure_file_system.Config.{
  Settings, is_key_id, field_bounds, is_some, add_entries, parse_key_list, check_ranges,
}
use secure_file_system.Config.Usable.{IsUsable, check_ranges-IsUsable}
use secure_file_system.Python.Strings.{partition, split, lstrip, rstrip, strip}
use secure_file_system.Python.Unicode.{ascii_only}

abbrev settings : Settings
settings = record {
  secret_key = codes "0123456789abcdef0123456789abcdef";
  secret_key_id = codes "k1";
  previous_secret_keys = codes " k0:fedcba9876543210fedcba9876543210 ,";
  shard_data_count = 4;
  shard_parity_count = 2;
  min_ttl_seconds = 60;
  max_ttl_seconds = 604800;
}

accepted_settings : check_ranges ascii_only settings ≡ ok settings
unfolding check_ranges parse_key_list add_entries partition split strip lstrip rstrip is_key_id
    is_some nat_eq list_eq Dict.get Dict.put
accepted_settings = refl

check_ranges-IsUsable_example : IsUsable ascii_only settings
unfolding field_bounds is_key_id
check_ranges-IsUsable_example =
    check_ranges-IsUsable ascii_only settings settings refl accepted_settings
