-- ===== src/Fb/Named.antt =====
-- The colours of src/fb.rs by their names.
use sill_os.Base.{Option, none, some, if◌then◌else◌, same, text, Text}
use sill_os.Fb.{Color, black, white, red}

abbrev pub green : Color
green = record { r = 0; g = 255; b = 0 }

abbrev pub blue : Color
blue = record { r = 0; g = 0; b = 255 }

unfoldable pub from_name : Text → Option Color
from_name name =
    if same name (text "black")
    then some black
    else if same name (text "red")
    then some red
    else if same name (text "green")
    then some green
    else if same name (text "white")
    then some white
    else if same name (text "blue")
    then some blue
    else none
