-- ===== src/Icons.antt =====
-- internal/gtkicons/gtkicons.go: the icons of a name. What GTK answers is a record.
use nsbox.Base.{ℕ, Text, List, [], ◌∷◌, ◌++◌, Option, none, some, Result}

-- GTK writes a scalable icon as the size -1.
pub data IconSize : Type 0 where
  scalable : IconSize
  pixels : ℕ → IconSize

pub record Icon : Type 0 where
  pub root : Text
  pub path : Text
  pub size : IconSize

-- What loading GTK and making a theme at a directory answers, the sizes of an icon in the theme, and
-- the file for one of them.
pub record Gtk : Type 0 where
  pub create_context : Text → Result (Unit {0})
  pub get_icon_sizes : Text → Text → List IconSize
  pub lookup_icon : Text → Text → IconSize → Option Text

abbrev to_icon : Text → IconSize → Option Text → List Icon
to_icon root size none = []
to_icon root size (some path) = record { root = root; path = path; size = size } ∷ []

-- lookupIconBySize; an icon that is not found is left out.
unfoldable pub lookup_icon_by_size : Gtk → Text → Text → IconSize → List Icon
lookup_icon_by_size gtk root icon size = to_icon root size (gtk.lookup_icon root icon size)

unfoldable pub lookup_sizes : Gtk → Text → Text → List IconSize → List Icon
unfolding lookup_icon_by_size
lookup_sizes gtk root icon [] = []
lookup_sizes gtk root icon (size ∷ sizes) =
    lookup_icon_by_size gtk root icon size ++ lookup_sizes gtk root icon sizes

abbrev pub sizes_or_none : Gtk → Text → Text → List IconSize → List Icon
sizes_or_none gtk root icon [] = lookup_icon_by_size gtk root icon (pixels 0)
sizes_or_none gtk root icon (size ∷ sizes) = lookup_sizes gtk root icon (size ∷ sizes)

-- FindIcon: where GTK knows no size, the icon is looked up with the size 0.
unfoldable pub find_icon : Gtk → Text → Text → List Icon
unfolding lookup_icon_by_size lookup_sizes
find_icon gtk root icon = sizes_or_none gtk root icon (gtk.get_icon_sizes root icon)
