-- ===== src/Host/CommandTests.antt =====
-- src/host.rs: user commands and mappings at concrete inputs.
use vim_script.Prelude.{
  ℕ, List, ◌≡◌, refl, true, false, none, some, [], ◌∷◌, Text, text, text_eq, find, store, length,
  ◌<◌, starts_with, strip_prefix, trim, trim_start, trim_end, trim_end_by, cons_unless,
  is_whitespace, all_by, is_ascii_uppercase, is_ascii_alphabetic, is_ascii_digit, show_ℕ,
  digits_onto,
}
use vim_script.Ast.{ExCommand, MapMode}
use vim_script.Runtime.Error.{ok}
use vim_script.Host.{HostContext, CommandRequest}
use vim_script.Host.Words.{
  word_at, filled_word, until_whitespace, is_ascii_alphanumeric, replace_all, replace_from,
  strip_suffix, reversed_prefix,
}
use vim_script.Host.UserCommands.{
  UserCommand, valued_attribute, set_attribute, valid_name, with_replacement, parse_name,
  starts_dash, parse_attributes, no_attributes, parse_user_command, nargs_or_zero, expand,
  expansion_error, expanded_text, command_of, takes_arguments,
}
use vim_script.Host.Dispatch.{HostRuntime}
use vim_script.ExParser.Cursor.{
  peek, bump_over, bump, take_while, horizontal_space, word, digits, accept, span_of,
}
use vim_script.ExParser.Modifiers.{
  modifier_of, next_modifier, prepend_modifier, modifiers_loop, modifiers,
}
use vim_script.ExParser.Ranges.{
  mark_address, search_address, line_address, simple_address, offsets_loop, with_offsets, address,
  range_from, parse_range,
}
use vim_script.ExParser.Parse.{
  find_command_separator, skip_colon, next_command_span, parse_arguments, parse_banged, parse_named,
  parse_command, parse_after_range, parse_modified, parse_begun, parse_line, parse_ex,
}
use vim_script.Runtime.Builtins.Strings.{split_whitespace, split_at_whitespace, keep_filled}
use vim_script.Host.MapNames.{
  mapping_modes, stem_or, with_flag, or_plain, prefix_modes, with_modes, modes_of, stem_modes,
}
use vim_script.Host.Methods.{
  new_host, define_parsed, define_user_command, prepare_command, prepare_rounds, with_expansion,
}
use vim_script.Host.MapText.{MapOption}
use vim_script.Host.Expansion.{prepare_command-settled}
use vim_script.Host.Reachable.{HostReachable, HostReachable-IsChecked}

abbrev ex : Text → Text → ExCommand
ex name arguments = record {
  modifiers = [];
  range = none;
  name = name;
  bang = false;
  count = none;
  register = none;
  arguments = arguments;
}

abbrev in_buffer : HostContext
in_buffer = record {
  script_name = none;
  current_buffer = some 7;
  current_window = none;
  current_tab = none;
}

-- The names that do take a mapping away.
odd_name : mapping_modes (text "nmapunmap") ≡ some (MapMode.normal ∷ [], (false, true))
unfolding mapping_modes stem_modes stem_or modes_of or_plain with_flag with_modes prefix_modes
    strip_suffix reversed_prefix strip_prefix starts_with text_eq
odd_name = refl

abbrev write_command : UserCommand
write_command = record { name = text "W"; replacement = text "write"; attributes = no_attributes }

abbrev define_request : ExCommand
define_request = ex (text "command") (text "-bang W write")

abbrev defining : HostRuntime
defining = (define_user_command define_request new_host).1

defined_command :
    find text_eq (text "W") defining.user_commands
    ≡ some (record write_command { attributes = record no_attributes { bang = true } })
unfolding define_user_command define_parsed new_host find store text_eq parse_user_command
    parse_attributes no_attributes word_at filled_word until_whitespace trim_start is_whitespace
    set_attribute valued_attribute starts_dash parse_name valid_name with_replacement all_by
    is_ascii_alphanumeric is_ascii_uppercase is_ascii_alphabetic is_ascii_digit
defined_command = refl

HostReachable-IsChecked_example :
    (text "W" ≡ text "W")
    × (valid_name (text "W") ≡ true)
    × (0 < length (text "write"))
    × ((n : ℕ) × (takes_arguments (nargs_or_zero (record no_attributes { bang = true }).nargs) n
          ≡ true))
HostReachable-IsChecked_example =
    HostReachable-IsChecked (HostReachable.defined HostReachable.start define_request) (text "W")
      (record write_command { attributes = record no_attributes { bang = true } }) defined_command

abbrev map_request : CommandRequest
map_request = record {
  command = ex (text "nnoremap") (text "<buffer> <silent> gx :open");
  context = in_buffer;
}

abbrev given_options : List MapOption
given_options = MapOption.buffer ∷ MapOption.silent ∷ []

abbrev calling : HostRuntime
calling = record new_host {
  user_commands =
      (
        text "Put",
        record {
          name = text "Put";
          replacement = text "write <args>";
          attributes = record no_attributes { nargs = some (text "1") };
        },
      )
      ∷ [];
}

abbrev put_request : CommandRequest
put_request = record { command = ex (text "Put") (text "f"); context = in_buffer }

abbrev prepared : CommandRequest
prepared = record { command = ex (text "write") (text "f"); context = in_buffer }

put_prepared : prepare_command calling put_request ≡ ok prepared
unfolding prepare_command prepare_rounds with_expansion find text_eq new_host no_attributes expand
    expansion_error expanded_text command_of takes_arguments nargs_or_zero replace_all replace_from
    starts_with trim trim_start trim_end trim_end_by cons_unless is_whitespace show_ℕ digits_onto
    split_whitespace split_at_whitespace keep_filled peek bump_over bump take_while horizontal_space
    word digits accept span_of modifier_of next_modifier prepend_modifier modifiers_loop modifiers
    mark_address search_address line_address simple_address offsets_loop with_offsets address
    range_from parse_range find_command_separator skip_colon next_command_span parse_arguments
    parse_banged parse_named parse_command parse_after_range parse_modified parse_begun parse_line
    parse_ex is_ascii_uppercase is_ascii_alphabetic is_ascii_digit
put_prepared = refl

prepare_command-settled_example :
    (find text_eq (text "write") calling.user_commands ≡ none) × (in_buffer ≡ in_buffer)
prepare_command-settled_example = prepare_command-settled calling put_request prepared put_prepared
