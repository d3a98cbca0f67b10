-- ===== src/Console/Carousel.antt =====
-- The pictures of devices and the carousel below the canvas, from the script of the dashboard
-- (pymesh/controller/web.py).
use pymesh.Base.{List, [], ◌∷◌, ◌++◌, map}
use pymesh.Base.Text.{Text, codes, join}

abbrev pub newline : Text
newline = codes "\n"

-- SVG_ICONS
pub data Icon : Type 0 where
  router : Icon
  switch : Icon
  server : Icon
  pc : Icon
  laptop : Icon

unfoldable pub svg_icon : Icon → Text
svg_icon router = join newline (
    []
    ∷ codes "                <g>"
    ∷ codes
        "                    <ellipse cx=\"0\" cy=\"0\" rx=\"24\" ry=\"14\" fill=\"#005B94\" stroke=\"#003d63\" stroke-width=\"2\"/>"
    ∷ codes
        "                    <path d=\"M-12,0 L12,0 M0,-7 L0,7 M-8,-4 L8,4 M-8,4 L8,-4\" stroke=\"#ffffff\" stroke-width=\"2\" stroke-linecap=\"round\"/>"
    ∷ codes "                </g>"
    ∷ [])
svg_icon switch = join newline (
    []
    ∷ codes "                <g>"
    ∷ codes
        "                    <rect x=\"-24\" y=\"-12\" width=\"48\" height=\"24\" rx=\"3\" fill=\"#005B94\" stroke=\"#003d63\" stroke-width=\"2\"/>"
    ∷ codes
        "                    <path d=\"M-14,-4 L14,-4 M-14,4 L14,4 M-6,-8 L-14,-4 L-6,0 M6,0 L14,4 L6,8\" stroke=\"#ffffff\" stroke-width=\"1.5\" stroke-linecap=\"round\" fill=\"none\"/>"
    ∷ codes "                </g>"
    ∷ [])
svg_icon server = join newline (
    []
    ∷ codes "                <g>"
    ∷ codes
        "                    <rect x=\"-22\" y=\"-16\" width=\"44\" height=\"32\" rx=\"4\" fill=\"#374151\" stroke=\"#1f2937\" stroke-width=\"2\"/>"
    ∷ codes
        "                    <rect x=\"-18\" y=\"-12\" width=\"36\" height=\"8\" fill=\"#111827\"/>"
    ∷ codes
        "                    <rect x=\"-18\" y=\"-1\" width=\"36\" height=\"8\" fill=\"#111827\"/>"
    ∷ codes
        "                    <rect x=\"-18\" y=\"10\" width=\"36\" height=\"4\" fill=\"#111827\"/>"
    ∷ codes "                    <circle cx=\"12\" cy=\"-8\" r=\"1.5\" fill=\"#00c853\"/>"
    ∷ codes "                    <circle cx=\"12\" cy=\"3\" r=\"1.5\" fill=\"#00c853\"/>"
    ∷ codes "                </g>"
    ∷ [])
svg_icon pc = join newline (
    []
    ∷ codes "                <g>"
    ∷ codes
        "                    <rect x=\"-20\" y=\"-18\" width=\"40\" height=\"26\" rx=\"2\" fill=\"#e5e7eb\" stroke=\"#374151\" stroke-width=\"2\"/>"
    ∷ codes
        "                    <rect x=\"-16\" y=\"-14\" width=\"32\" height=\"18\" fill=\"#1e293b\"/>"
    ∷ codes
        "                    <path d=\"M-6,8 L6,8 M0,8 L0,14 M-12,14 L12,14\" stroke=\"#374151\" stroke-width=\"2\"/>"
    ∷ codes "                </g>"
    ∷ [])
svg_icon laptop = join newline (
    []
    ∷ codes "                <g>"
    ∷ codes
        "                    <rect x=\"-16\" y=\"-14\" width=\"32\" height=\"20\" rx=\"2\" fill=\"#374151\" stroke=\"#111827\" stroke-width=\"1.5\"/>"
    ∷ codes
        "                    <rect x=\"-13\" y=\"-11\" width=\"26\" height=\"14\" fill=\"#0f172a\"/>"
    ∷ codes
        "                    <path d=\"M-22,8 L22,8 L20,12 L-20,12 Z\" fill=\"#9ca3af\" stroke=\"#374151\"/>"
    ∷ codes "                </g>"
    ∷ [])

-- `type` of an entry of CAROUSEL_DATA
pub data DeviceType : Type 0 where
  icon : Icon → DeviceType
  cable : DeviceType

pub record Device : Type 0 where
  pub name : Text
  pub type : DeviceType

pub data Category : Type 0 where
  routers : Category
  switches : Category
  enddevices : Category
  connections : Category

abbrev device : Text → DeviceType → Device
device name type = record { name = name; type = type }

-- CAROUSEL_DATA
unfoldable pub carousel_data : Category → List Device
carousel_data routers =
    device (codes "2911 Router") (icon router)
    ∷ device (codes "1941 Router") (icon router)
    ∷ device (codes "4331 ISR") (icon router)
    ∷ []
carousel_data switches =
    device (codes "2960 Switch") (icon switch) ∷ device (codes "3560-24PS") (icon switch) ∷ []
carousel_data enddevices =
    device (codes "PC-PT Workstation") (icon pc)
    ∷ device (codes "Laptop-PT") (icon laptop)
    ∷ device (codes "Server-PT") (icon server)
    ∷ []
carousel_data connections =
    device (codes "Straight-Through") cable ∷ device (codes "Cross-Over") cable ∷ []

-- `SVG_ICONS[item.type] || SVG_ICONS['pc']`
abbrev type_icon : DeviceType → Text
type_icon (icon i) = svg_icon i
type_icon cable = svg_icon pc

unfoldable pub carousel_item : Device → Text
unfolding svg_icon
carousel_item item = join newline (
    []
    ∷ (codes "                <div class=\"device-item\" onclick=\"alert('Drag or add "
        ++ (item.name ++ (codes " to topology canvas')\">")))
    ∷ codes "                    <svg width=\"48\" height=\"36\" viewBox=\"-26 -20 52 40\">"
    ∷ (codes "                        " ++ (type_icon item.type))
    ∷ codes "                    </svg>"
    ∷ (codes "                    <div style=\"margin-top:4px; font-weight:bold; font-size:10px;\">"
        ++ (item.name ++ (codes "</div>")))
    ∷ codes "                </div>"
    ∷ codes "            "
    ∷ [])

-- the content that `renderCarousel` sets
unfoldable pub render_carousel : Category → Text
unfolding carousel_data carousel_item
render_carousel cat = join [] (map carousel_item (carousel_data cat))
