-- ===== src/Domain/SampleNames.antt =====
-- The Persian names of the sample rows in invoice_service.go and inventory_service.go, as code points.
use textile_erp_cloud.Base.{[], ◌∷◌}
use textile_erp_cloud.Base.Text.{Text}

abbrev pub sample_company : Text
sample_company =
    0x634 ∷ 0x631 ∷ 0x6a9 ∷ 0x62a ∷ 0x20 ∷ 0x646 ∷ 0x633 ∷ 0x627 ∷ 0x62c ∷ 0x6cc ∷ 0x20 ∷ 0x646
    ∷ 0x645 ∷ 0x648 ∷ 0x646 ∷ 0x647 ∷ []

abbrev pub polyester_yarn : Text
polyester_yarn =
    0x646 ∷ 0x62e ∷ 0x20 ∷ 0x67e ∷ 0x644 ∷ 0x6cc ∷ 0x20 ∷ 0x627 ∷ 0x633 ∷ 0x62a ∷ 0x631 ∷ []

abbrev pub polyester_yarn_grade_1 : Text
polyester_yarn_grade_1 =
    0x646 ∷ 0x62e ∷ 0x20 ∷ 0x67e ∷ 0x644 ∷ 0x6cc ∷ 0x20 ∷ 0x627 ∷ 0x633 ∷ 0x62a ∷ 0x631 ∷ 0x20
    ∷ 0x62f ∷ 0x631 ∷ 0x62c ∷ 0x647 ∷ 0x20 ∷ 0x6f1 ∷ []

abbrev pub cotton_yarn : Text
cotton_yarn = 0x646 ∷ 0x62e ∷ 0x20 ∷ 0x67e ∷ 0x646 ∷ 0x628 ∷ 0x647 ∷ []

abbrev pub fine_cotton_yarn : Text
fine_cotton_yarn =
    0x646 ∷ 0x62e ∷ 0x20 ∷ 0x67e ∷ 0x646 ∷ 0x628 ∷ 0x647 ∷ 0x20 ∷ 0x645 ∷ 0x631 ∷ 0x63a ∷ 0x648
    ∷ 0x628 ∷ []

abbrev pub polyester_fabric : Text
polyester_fabric =
    0x67e ∷ 0x627 ∷ 0x631 ∷ 0x686 ∷ 0x647 ∷ 0x20 ∷ 0x67e ∷ 0x644 ∷ 0x6cc ∷ 0x20 ∷ 0x627 ∷ 0x633
    ∷ 0x62a ∷ 0x631 ∷ []

abbrev pub fabric_width_150 : Text
fabric_width_150 =
    0x67e ∷ 0x627 ∷ 0x631 ∷ 0x686 ∷ 0x647 ∷ 0x20 ∷ 0x639 ∷ 0x631 ∷ 0x636 ∷ 0x20 ∷ 0x6f1 ∷ 0x6f5
    ∷ 0x6f0 ∷ []

abbrev pub weaving_workshop : Text
weaving_workshop =
    0x6a9 ∷ 0x627 ∷ 0x631 ∷ 0x6af ∷ 0x627 ∷ 0x647 ∷ 0x20 ∷ 0x628 ∷ 0x627 ∷ 0x641 ∷ 0x646 ∷ 0x62f
    ∷ 0x6af ∷ 0x6cc ∷ 0x20 ∷ 0x627 ∷ 0x645 ∷ 0x6cc ∷ 0x62f ∷ []

abbrev pub cotton_fabric : Text
cotton_fabric = 0x67e ∷ 0x627 ∷ 0x631 ∷ 0x686 ∷ 0x647 ∷ 0x20 ∷ 0x646 ∷ 0x62e ∷ 0x6cc ∷ []

abbrev pub white_cotton_fabric : Text
white_cotton_fabric =
    0x67e ∷ 0x627 ∷ 0x631 ∷ 0x686 ∷ 0x647 ∷ 0x20 ∷ 0x646 ∷ 0x62e ∷ 0x6cc ∷ 0x20 ∷ 0x633 ∷ 0x641
    ∷ 0x6cc ∷ 0x62f ∷ []

abbrev pub main_warehouse : Text
main_warehouse = 0x627 ∷ 0x646 ∷ 0x628 ∷ 0x627 ∷ 0x631 ∷ 0x20 ∷ 0x627 ∷ 0x635 ∷ 0x644 ∷ 0x6cc ∷ []

abbrev pub product_warehouse : Text
product_warehouse =
    0x627 ∷ 0x646 ∷ 0x628 ∷ 0x627 ∷ 0x631 ∷ 0x20 ∷ 0x645 ∷ 0x62d ∷ 0x635 ∷ 0x648 ∷ 0x644 ∷ []
