-- ===== src/Tests/ConfigTests.antt =====
-- utils/config.c on concrete files.
use foxtails.Base.{some, List, [], ◌∷◌, ◌≡◌, refl}
use foxtails.Base.Bytes.{
  Bytes, codes, c_str, drop_while, full_lines, lines_from, is_space, memchr, starts_with,
}
use foxtails.Base.Decimal.{pos, strtol, read_digits, int_of_long}
use foxtails.Config.Find.{config_get-print_config}
use foxtails.Config.Print.{Section, print_config, find_named}
use foxtails.Config.{
  missing, value, overrun, config_get, config_get_int, find_section, find_key, key_line,
  section_line, section_of, behind_key, value_from, split_key, int_of_lookup,
}

abbrev config_file : Bytes
config_file = codes "# main\n[app]\nroot = www\n[server]\nport=8080\nempty=\nlast=1\n"

root_test : config_get config_file (codes "app") (codes "root") ≡ value (codes "www")
unfolding config_get find_section find_key key_line section_line section_of behind_key value_from
    split_key c_str drop_while full_lines lines_from is_space memchr starts_with
root_test = refl

port_test : config_get_int config_file (codes "server") (codes "port") ≡ some (pos 8080)
unfolding config_get_int int_of_lookup config_get find_section find_key key_line section_line
    section_of behind_key value_from split_key c_str drop_while full_lines lines_from is_space
    memchr starts_with strtol read_digits int_of_long
port_test = refl

-- An empty value is not an empty string.
empty_test : config_get config_file (codes "server") (codes "empty") ≡ overrun
unfolding config_get find_section find_key key_line section_line section_of behind_key value_from
    split_key c_str drop_while full_lines lines_from is_space memchr starts_with
empty_test = refl

missing_test : config_get config_file (codes "app") (codes "port") ≡ missing
unfolding config_get find_section find_key key_line section_line section_of behind_key value_from
    split_key c_str drop_while full_lines lines_from is_space memchr starts_with
missing_test = refl

abbrev two_sections : List Section
two_sections =
    record { name = codes "app"; entries = record { key = codes "root"; val = codes "www" } ∷ [] }
    ∷ record {
      name = codes "server";
      entries =
          record { key = codes "log"; val = codes "1" }
          ∷ record { key = codes "port"; val = codes "80 80" }
          ∷ [];
    }
    ∷ []

config_get-print_config_example :
    config_get (print_config two_sections) (codes "server") (codes "port")
    ≡ find_named (codes "server") (codes "port") two_sections
unfolding is_space
config_get-print_config_example =
    config_get-print_config (codes "server") (codes "port") two_sections
      ((refl, ((refl, refl), tt)), ((refl, ((refl, refl), ((refl, refl), tt))), tt))
